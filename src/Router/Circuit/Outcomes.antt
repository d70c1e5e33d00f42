-- ===== src/Router/Circuit/Outcomes.antt =====
-- An outcome moves the machine of its backend.
use riftgate.Base.{
  ℕ, ◌<◌, ◌≡◌, refl, Option, none, some, ◌==◌, if◌then◌else◌, ℕ_discrete, arith, put_self,
  Option-cases, inl, inr, put-All,
}
use riftgate.Core.Router.{BackendId, Outcome}
use riftgate.Router.Circuit.{
  CircuitBreakerConfig, BackendBreaker, Breakers, u32_mod, tag_closed, new_breaker, or_new,
  ensure_backend, is_failure, settle, record_outcome,
}
use riftgate.Router.Circuit.Machine.{
  phase, look, after_outcome, IsBreaker, IsValid, unpack-pack_state, settle-phase,
  settle-phase_other, settle-IsBreaker,
}

new_breaker-IsBreaker : IsBreaker new_breaker
unfolding new_breaker
new_breaker-IsBreaker = ground (arith, unpack-pack_state tag_closed 0)

or_new-IsBreaker :
    (s : Breakers) (backend : BackendId) → IsValid s → IsBreaker (or_new (s.breakers backend))
or_new-IsBreaker s backend v = elim (Option-cases (s.breakers backend)) [
  | inl e ↦ rw (e, or_new) new_breaker-IsBreaker
  | inr (b, e) ↦ rw (e, or_new) (v.each backend b e)
]

pub ensure_backend-IsValid :
    (s : Breakers) (backend : BackendId) → IsValid s → IsValid (ensure_backend s backend)
unfolding ensure_backend
ensure_backend-IsValid s backend v = record {
  each = put-All ℕ_discrete IsBreaker s.breakers backend _ v.each (or_new-IsBreaker s backend v);
}

look-or_new : (o : Option BackendBreaker) (at : Option ℕ) → look (some (or_new o)) at ≡ look o at
unfolding look new_breaker
look-or_new none at = ground (arith, unpack-pack_state tag_closed 0)
look-or_new (some b) at = refl

pub ensure_backend-phase :
    (s : Breakers) (backend j : BackendId) → phase (ensure_backend s backend) j ≡ phase s j
unfolding phase ensure_backend
ensure_backend-phase s backend j = ground (arith, look-or_new (s.breakers j) (s.transitioned_at j))

pub ensure_backend-some :
    (s : Breakers) (backend : BackendId)
    → (ensure_backend s backend).breakers backend ≡ some (or_new (s.breakers backend))
unfolding ensure_backend
ensure_backend-some s backend = put_self ℕ_discrete s.breakers backend _

record_outcome-settle :
    (cfg : CircuitBreakerConfig) (now : ℕ) (s : Breakers) (outcome : Outcome)
    → record_outcome cfg now s outcome
      ≡ settle cfg now
          (ensure_backend s outcome.backend)
          outcome.backend
          (or_new (s.breakers outcome.backend))
          (is_failure outcome)
unfolding record_outcome
record_outcome-settle cfg now s outcome = rw (ensure_backend-some s outcome.backend, record_outcome)

-- For a failure threshold below 2^32 and valid breakers: recording an outcome moves the machine of
-- its backend by that outcome, success or failure as the code classes it, where one success closes a
-- half-open machine, moves no other machine, and keeps the breakers valid.
pub record_outcome-phase :
    (cfg : CircuitBreakerConfig) (now : ℕ) (s : Breakers) (outcome : Outcome) (j : BackendId)
    → cfg.failure_threshold < u32_mod
    → IsValid s
    → (phase (record_outcome cfg now s outcome) j ≡ (
        if outcome.backend == j
        then after_outcome cfg now (is_failure outcome) (phase s j)
        else phase s j))
      × IsValid (record_outcome cfg now s outcome)
record_outcome-phase cfg now s outcome j small v =
    let k = outcome.backend in
    let s' = ensure_backend s k in
    let b = or_new (s.breakers k) in
    rw (record_outcome-settle cfg now s outcome) (
      ground (
        arith,
        ensure_backend-phase s k j,
        settle-phase cfg now s' k b (is_failure outcome) small (or_new-IsBreaker s k v)
            (ensure_backend-some s k),
        settle-phase_other cfg now s' k j b (is_failure outcome),
      ),
      settle-IsBreaker cfg now s' k b (is_failure outcome) small (or_new-IsBreaker s k v)
          (ensure_backend-some s k) (ensure_backend-IsValid s k v),
    )
