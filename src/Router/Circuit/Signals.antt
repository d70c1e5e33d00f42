-- ===== src/Router/Circuit/Signals.antt =====
-- The signals that the arbiter hands to its inner router.
use riftgate.Base.{
  suc, ◌<◌, ◌≡◌, ◌≢◌, refl, Bool, true, false, Option, none, some, List, [], ◌∷◌, if◌then◌else◌,
  arith, ap, ◌∙◌, length, get_elem?, set, replicate, length-set, length-replicate,
  get_elem?-set_self, get_elem?-set_ne, ==_refl, ==-eq-false, ℕ_discrete,
}
use riftgate.Core.Router.{
  BackendId, BackendPool, BackendSignal, BackendSignals, CircuitState, default_signal, get_signal,
  contains,
}
use riftgate.Router.Circuit.{
  CircuitBreakerConfig, BackendBreaker, Breakers, max_id, presented, copy_signals, write_state,
  write_breaker, overlay, build_signals,
}

lt-max_id : (pool : List BackendId) (b : BackendId) → contains pool b ≡ true → b < suc (max_id pool)
unfolding max_id
lt-max_id [] b h = cc
lt-max_id (x ∷ xs) b h = ground (arith, lt-max_id xs b)

length-copy_signals :
    (signals : BackendSignals) (pool : List BackendId) (out : List BackendSignal)
    → length (copy_signals signals pool out) ≡ length out
unfolding copy_signals
length-copy_signals signals [] out = refl
length-copy_signals signals (b ∷ rest) out =
    length-copy_signals signals rest (set out b (get_signal signals b))
    ∙ length-set out b (get_signal signals b)

get_elem?-copy_signals :
    (signals : BackendSignals) (pool : List BackendId) (out : List BackendSignal) (b : BackendId)
    → b < length out
    → get_elem? (copy_signals signals pool out) b
      ≡ (if contains pool b then some (get_signal signals b) else get_elem? out b)
unfolding copy_signals
get_elem?-copy_signals signals [] out b h = refl
get_elem?-copy_signals signals (x ∷ rest) out b h = ground (
  arith,
  get_elem?-copy_signals signals rest (set out x (get_signal signals x)) b,
  length-set out x (get_signal signals x),
  get_elem?-set_self out x (get_signal signals x),
  get_elem?-set_ne out x b (get_signal signals x),
)

-- A signal as one breaker shows it.
abbrev pub shown : CircuitBreakerConfig → Option BackendBreaker → BackendSignal → BackendSignal
shown cfg none x = x
shown cfg (some br) x = record x { circuit_state = presented cfg br }

write_state_self :
    (out : List BackendSignal) (b : BackendId) (st : CircuitState) (x : BackendSignal)
    → get_elem? out b ≡ some x
    → b < length out
    → get_elem? (write_state out b st) b ≡ some (record x { circuit_state = st })
unfolding write_state get_signal
write_state_self out b st x e h = get_elem?-set_self out b _ h ∙ rw e

write_state_other :
    (out : List BackendSignal) (b j : BackendId) (st : CircuitState)
    → b ≢ j
    → get_elem? (write_state out b st) j ≡ get_elem? out j
unfolding write_state
write_state_other out b j st h = get_elem?-set_ne out b j _ h

length-write_state :
    (out : List BackendSignal) (b : BackendId) (st : CircuitState)
    → length (write_state out b st) ≡ length out
unfolding write_state
length-write_state out b st = length-set out b _

write_breaker_self :
    (cfg : CircuitBreakerConfig) (o : Option BackendBreaker) (out : List BackendSignal)
    (b : BackendId) (x : BackendSignal)
    → b < length out
    → get_elem? out b ≡ some x
    → get_elem? (write_breaker cfg o b out) b ≡ some (shown cfg o x)
unfolding write_breaker
write_breaker_self cfg none out b x h e = e
write_breaker_self cfg (some br) out b x h e = write_state_self out b (presented cfg br) x e h

write_breaker_other :
    (cfg : CircuitBreakerConfig) (o : Option BackendBreaker) (out : List BackendSignal)
    (b j : BackendId)
    → b ≢ j
    → get_elem? (write_breaker cfg o b out) j ≡ get_elem? out j
unfolding write_breaker
write_breaker_other cfg none out b j h = refl
write_breaker_other cfg (some br) out b j h = write_state_other out b j (presented cfg br) h

length-write_breaker :
    (cfg : CircuitBreakerConfig) (o : Option BackendBreaker) (out : List BackendSignal)
    (b : BackendId)
    → length (write_breaker cfg o b out) ≡ length out
unfolding write_breaker
length-write_breaker cfg none out b = refl
length-write_breaker cfg (some br) out b = length-write_state out b (presented cfg br)

abbrev shown_if :
    Bool → CircuitBreakerConfig → Option BackendBreaker → BackendSignal → BackendSignal
shown_if b cfg o x = if b then shown cfg o x else x

shown_if-shown :
    (c : Bool) (cfg : CircuitBreakerConfig) (o : Option BackendBreaker) (x : BackendSignal)
    → shown_if c cfg o (shown cfg o x) ≡ shown cfg o x
shown_if-shown true cfg none x = refl
shown_if-shown true cfg (some br) x = refl
shown_if-shown false cfg o x = refl

get_elem?-overlay :
    (cfg : CircuitBreakerConfig) (s : Breakers) (pool : List BackendId) (out : List BackendSignal)
    (b : BackendId) (x : BackendSignal)
    → b < length out
    → get_elem? out b ≡ some x
    → get_elem? (overlay cfg s pool out) b ≡ some (shown_if (contains pool b) cfg (s.breakers b) x)
unfolding overlay
get_elem?-overlay cfg s [] out b x h e = e
get_elem?-overlay cfg s (p ∷ rest) out b x h e =
    let out' = write_breaker cfg (s.breakers p) p out in
    let h' : b < length out' = rw (length-write_breaker cfg (s.breakers p) out p) h in
    elim (ℕ_discrete p b) [
      | yes q ↦
          rw (q, ==_refl b)
            (get_elem?-overlay cfg s rest (write_breaker cfg (s.breakers b) b out) b
                (shown cfg (s.breakers b) x) (rw (length-write_breaker cfg (s.breakers b) out b) h)
                (write_breaker_self cfg (s.breakers b) out b x h e)
              ∙ ap some (shown_if-shown (contains rest b) cfg (s.breakers b) x))
      | no q ↦ rw (==-eq-false p b q) (
          get_elem?-overlay cfg s rest out' b x h'
            (write_breaker_other cfg (s.breakers p) out p b q ∙ e))
    ]

-- For a backend of the pool the inner router sees the caller's signal, with the circuit state
-- replaced by what the backend's breaker shows, if it has one.
pub get_signal-build_signals :
    (cfg : CircuitBreakerConfig) (s : Breakers) (pool : BackendPool) (signals : BackendSignals)
    (b : BackendId)
    → contains pool.backends b ≡ true
    → get_signal (build_signals cfg s pool signals) b
      ≡ shown cfg (s.breakers b) (get_signal signals b)
unfolding build_signals
get_signal-build_signals cfg s pool signals b h =
    let blank = replicate (suc (max_id pool.backends)) default_signal in
    let fits : b < length blank =
      rw (length-replicate (suc (max_id pool.backends)) default_signal)
        (lt-max_id pool.backends b h) in
    let copied = get_elem?-copy_signals signals pool.backends blank b fits in
    let out = copy_signals signals pool.backends blank in
    let fits' : b < length out = rw (length-copy_signals signals pool.backends blank) fits in
    let seen =
      get_elem?-overlay cfg s pool.backends out b (get_signal signals b) fits' (copied ∙ rw h) in
    rw (get_signal, seen, h)
