-- ===== src/Router/Circuit/Waiting.antt =====
-- The passing of time moves open machines to probing.
use riftgate.Base.{
  ℕ, ◌+◌, ◌-◌, ◌<◌, ◌≡◌, refl, some, List, [], ◌∷◌, ◌==◌, if◌then◌else◌, arith, ap, ◌∙◌,
}
use riftgate.Core.Router.{BackendId}
use riftgate.Router.Circuit.{
  CircuitBreakerConfig, Breakers, tag_half_open, ensure_backend, maybe_transition_open_to_halfopen,
  prepare,
}
use riftgate.Router.Circuit.Machine.{
  Phase, open_since, phase, look, after_wait, IsValid, unpack-pack_state,
}
use riftgate.Router.Circuit.Outcomes.{ensure_backend-phase, ensure_backend-IsValid}

transition-phase :
    (cfg : CircuitBreakerConfig) (now : ℕ) (s : Breakers) (k j : BackendId)
    → phase (maybe_transition_open_to_halfopen cfg now s k) j
      ≡ (if k == j then after_wait cfg now (phase s j) else phase s j)
unfolding maybe_transition_open_to_halfopen phase look after_wait
transition-phase cfg now s k j = ground (arith, unpack-pack_state tag_half_open 0)

transition-IsValid :
    (cfg : CircuitBreakerConfig) (now : ℕ) (s : Breakers) (k : BackendId)
    → IsValid s
    → IsValid (maybe_transition_open_to_halfopen cfg now s k)
unfolding maybe_transition_open_to_halfopen
transition-IsValid cfg now s k v = record {
  each = λ j c h. ground (arith, v.each j c, unpack-pack_state tag_half_open 0);
}

-- The machine of `j` after the pool's entries for it have each been looked at once.
unfoldable pub wait_all :
    CircuitBreakerConfig → (ℕ → ℕ) → ℕ → List BackendId → BackendId → Phase → Phase
unfolding after_wait
wait_all cfg clock i [] j p = p
wait_all cfg clock i (b ∷ rest) j p =
    wait_all cfg clock (i + 1) rest j (if b == j then after_wait cfg (clock i) p else p)

-- The loop at the head of `route` lets time pass for the machines of the pool, each entry at its
-- own reading of the clock, changes no other machine, and keeps the breakers valid.
pub prepare-phase :
    (cfg : CircuitBreakerConfig) (clock : ℕ → ℕ) (i : ℕ) (pool : List BackendId) (s : Breakers)
    (j : BackendId)
    → IsValid s
    → (phase (prepare cfg clock i pool s) j ≡ wait_all cfg clock i pool j (phase s j))
      × IsValid (prepare cfg clock i pool s)
unfolding prepare wait_all
prepare-phase cfg clock i [] s j v = (refl, v)
prepare-phase cfg clock i (b ∷ rest) s j v =
    let s' = ensure_backend s b in
    let s'' = maybe_transition_open_to_halfopen cfg (clock i) s' b in
    let (p, w) =
      prepare-phase cfg clock (i + 1) rest s'' j
        (transition-IsValid cfg (clock i) s' b (ensure_backend-IsValid s b v)) in
    (
      p
          ∙ ap (wait_all cfg clock (i + 1) rest j) (
              transition-phase cfg (clock i) s' b j
              ∙ ap (λ q. if b == j then after_wait cfg (clock i) q else q)
                  (ensure_backend-phase s b j)),
      w,
    )

-- A backend that opened at `t` stays open while every reading is less than the timeout after `t`.
pub wait_all-open :
    (cfg : CircuitBreakerConfig) (clock : ℕ → ℕ) (i : ℕ) (pool : List BackendId) (j : BackendId)
    (t : ℕ)
    → ((k : ℕ) → clock k - t < cfg.reset_timeout)
    → wait_all cfg clock i pool j (open_since (some t)) ≡ open_since (some t)
unfolding wait_all after_wait
wait_all-open cfg clock i [] j t early = refl
wait_all-open cfg clock i (b ∷ rest) j t early =
    ground (arith, early i, wait_all-open cfg clock (i + 1) rest j t early)
