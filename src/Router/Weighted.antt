-- ===== src/Router/Weighted.antt =====
-- crates/riftgate-router/src/weighted.rs: Vose's alias table, its sampling, and the router over it.
mod Tests
pub mod Choice
pub mod Table
use Prim.Native.Nat.{bit_xor}
use riftgate.Base.{
  ℕ, zero, suc, ◌+◌, ◌-◌, ◌*◌, ◌/◌, ◌%◌, ◌^◌, max, Bool, true, false, not, ◌&&◌, Option, none, some,
  List, [], ◌∷◌, map, ltb, leb, ◌==◌, if◌then◌else◌, length, get_elem?, set,
}
use riftgate.Core.Request.{Request, bad_gateway, service_unavailable}
use riftgate.Core.Router.{
  Router, BackendId, BackendPool, BackendSignal, BackendSignals, CircuitState, closed, opened,
  half_open, RoutingDecision, send, reject, Outcome, F32, get_signal,
}

abbrev pub max_weighted_backends : ℕ
max_weighted_backends = 32

abbrev pub alias_scale : ℕ
alias_scale = 2 ^ 24

abbrev pub u64_mod : ℕ
u64_mod = 2 ^ 64

pub record AliasEntry : Type 0 where
  pub primary : BackendId
  pub alias : BackendId
  pub prob_scaled : ℕ

pub record WeightedRandomRouter : Type 0 where
  pub table : List AliasEntry
  pub backends : List BackendId
  pub rng_state : ℕ

-- A weighted backend: the id and the weight.
abbrev pub Weights : Type 0
Weights = List (BackendId × ℕ)

pub total : Weights → ℕ
total [] = 0
total ((b, w) ∷ rest) = w + total rest

-- The assertions of the constructor: at least one backend, at most 32, all weights positive.
pub all_positive : Weights → Bool
all_positive [] = true
all_positive ((b, w) ∷ rest) = ltb 0 w && all_positive rest

pub is_valid : Weights → Bool
unfolding all_positive
is_valid weights =
    ltb 0 (length weights) && leb (length weights) max_weighted_backends && all_positive weights

pub scaled_of : ℕ → ℕ → Weights → List ℕ
scaled_of n sum [] = []
scaled_of n sum ((b, w) ∷ rest) = w * n * alias_scale % u64_mod / sum ∷ scaled_of n sum rest

-- The working state of the table build. The heads of the two stacks are the ends of the vectors.
pub record Build : Type 0 where
  pub scaled : List ℕ
  pub small : List ℕ
  pub large : List ℕ
  pub table : List AliasEntry

-- The first loop: `i` counts the entries of `scaled`.
pub classify : ℕ → List ℕ → List ℕ × List ℕ → List ℕ × List ℕ
classify i [] stacks = stacks
classify i (s ∷ rest) (small, large) =
    classify (i + 1) rest (if ltb s alias_scale then (i ∷ small, large) else (small, i ∷ large))

abbrev pub whole : BackendId × ℕ → AliasEntry
whole (b, w) = record { primary = b; alias = b; prob_scaled = alias_scale }

abbrev pub id_at : Weights → ℕ → BackendId
id_at [] i = 0
id_at ((b, w) ∷ rest) zero = b
id_at ((b, w) ∷ rest) (suc i) = id_at rest i

abbrev pub value_at : List ℕ → ℕ → ℕ
value_at [] i = 0
value_at (x ∷ xs) zero = x
value_at (x ∷ xs) (suc i) = value_at xs i

-- One round of the pairing loop, on the entries `s` and `l` that were popped.
pub pair_up : Weights → Build → ℕ → ℕ → List ℕ → List ℕ → Build
pair_up weights st s l small large =
    let new_large = value_at st.scaled l + value_at st.scaled s - alias_scale in
    record {
      scaled = set st.scaled l new_large;
      small = if ltb new_large alias_scale then l ∷ small else small;
      large = if ltb new_large alias_scale then large else l ∷ large;
      table = set st.table s (record {
        primary = id_at weights s;
        alias = id_at weights l;
        prob_scaled = value_at st.scaled s % 2 ^ 32;
      });
    }

-- `while let (Some(s), Some(l)) = (small.pop(), large.pop())`: at the end of the loop the stack
-- that still had an entry has lost it. Each round takes one entry off the stacks, so the number of
-- entries is fuel enough.
pub pairing : ℕ → Weights → Build → List ℕ → List ℕ → Build
unfolding pair_up
pairing zero weights st small large = record st { small = small; large = large }
pairing (suc fuel) weights st [] [] = record st { small = []; large = [] }
pairing (suc fuel) weights st [] (l ∷ large) = record st { small = []; large = large }
pairing (suc fuel) weights st (s ∷ small) [] = record st { small = small; large = [] }
pairing (suc fuel) weights st (s ∷ small) (l ∷ large) =
    let st' = pair_up weights st s l small large in pairing fuel weights st' st'.small st'.large

pub settle : Weights → List ℕ → List AliasEntry → List AliasEntry
settle weights [] table = table
settle weights (i ∷ rest) table = settle weights rest (set table i (whole (id_at weights i, 0)))

pub build_table : Weights → List AliasEntry
unfolding total scaled_of classify pairing settle
build_table weights =
    let n = length weights in
    let scaled = scaled_of n (total weights) weights in
    let (small, large) = classify 0 scaled ([], []) in
    let start : Build = record {
      scaled = scaled;
      small = small;
      large = large;
      table = map whole weights;
    } in
    let done = pairing (n + 1) weights start small large in
    settle weights done.small (settle weights done.large done.table)

-- `none` is a failed assertion.
pub with_seed : Weights → ℕ → Option WeightedRandomRouter
unfolding is_valid build_table
with_seed weights seed =
    if is_valid weights
    then some (record {
      table = build_table weights;
      backends = map (λ (w : BackendId × ℕ). w.0) weights;
      rng_state = max seed 1;
    })
    else none

pub xorshift64 : ℕ → ℕ
xorshift64 x =
    let a = bit_xor x (x * 2 ^ 13 % u64_mod) in
    let b = bit_xor a (a / 2 ^ 7) in bit_xor b (b * 2 ^ 17 % u64_mod)

pub splitmix64 : ℕ → ℕ
splitmix64 z =
    let z1 = (z + 0x9E37_79B9_7F4A_7C15) % u64_mod in
    let t1 = bit_xor z1 (z1 / 2 ^ 30) * 0xBF58_476D_1CE4_E5B9 % u64_mod in
    let t2 = bit_xor t1 (t1 / 2 ^ 27) * 0x94D0_49BB_1331_11EB % u64_mod in bit_xor t2 (t2 / 2 ^ 31)

pub new : Weights → Option WeightedRandomRouter
unfolding with_seed splitmix64
new weights = with_seed weights (splitmix64 0xCAFE_BABE_DEAD_BEEF)

-- The exchange of `next_u64` succeeds at once where nobody interferes and the state is not 0. At 0 the
-- code never leaves its loop, since it compares with 1; `with_seed` and this function give no such
-- state, and the answer here for 0 stands for nothing in the code.
pub next_u64 : WeightedRandomRouter → ℕ × WeightedRandomRouter
unfolding xorshift64
next_u64 r = let next = xorshift64 (max r.rng_state 1) in (next, record r { rng_state = next })

abbrev pub pick : Option AliasEntry → ℕ → BackendId
pick none coin = 0
pick (some entry) coin = if ltb coin entry.prob_scaled then entry.primary else entry.alias

-- The bucket from the low bits, the coin from 24 of the high ones.
pub sample : WeightedRandomRouter → BackendId × WeightedRandomRouter
unfolding next_u64
sample r =
    let (draw, r') = next_u64 r in
    let bucket = draw % length r.table in
    let coin = draw / 2 ^ 32 % 2 ^ 32 % alias_scale in (pick (get_elem? r.table bucket) coin, r')

abbrev pub is_open_signal : BackendSignal → Bool
is_open_signal s = elim s.circuit_state [ opened ↦ true | closed ↦ false | half_open ↦ false ]

abbrev pub get_or_insert : Option BackendId → BackendId → Option BackendId
get_or_insert none b = some b
get_or_insert (some a) b = some a

abbrev pub last_resort : Option BackendId → RoutingDecision
last_resort none = reject service_unavailable
last_resort (some b) = send b

abbrev pub or_fallback : Option BackendId × Option BackendId → RoutingDecision
or_fallback (fallback, some b) = send b
or_fallback (fallback, none) = last_resort fallback

-- The test `p.clamp(0.0, 1.0) >= 0.90` on an f32 is a parameter.
module _ (at_threshold : F32 → Bool) where
  pub is_hot : BackendSignal → Bool
  is_hot signal = elim signal.gpu_pressure [ none ↦ false | some p ↦ at_threshold p ]

  -- What a loop's body makes of one backend: skip it, keep it as the fallback, or return it.
  pub consider : BackendSignals → BackendId → Option BackendId → Option BackendId × Bool
  unfolding is_hot get_signal
  consider signals b fallback =
      let signal = get_signal signals b in
      if is_open_signal signal
      then (fallback, false)
      else (get_or_insert fallback b, not (is_hot signal))

  -- `Send` as soon as a backend may be returned.
  pub scan :
      BackendSignals → List BackendId → Option BackendId → Option BackendId × Option BackendId
  unfolding consider
  scan signals [] fallback = (fallback, none)
  scan signals (b ∷ rest) fallback =
      let (fallback', done) = consider signals b fallback in
      let later = scan signals rest fallback' in if done then (fallback', some b) else later

  -- The sampling loop with `n` rounds left.
  pub sampling :
      ℕ
      → WeightedRandomRouter
      → BackendSignals
      → Option BackendId
      → (Option BackendId × Option BackendId) × WeightedRandomRouter
  unfolding sample consider
  sampling zero r signals fallback = ((fallback, none), r)
  sampling (suc n) r signals fallback =
      let (b, r') = sample r in
      let (fallback', done) = consider signals b fallback in
      let later = sampling n r' signals fallback' in
      if done then ((fallback', some b), r') else later

  pub after_sampling :
      BackendSignals → List BackendId → Option BackendId × Option BackendId → RoutingDecision
  unfolding scan
  after_sampling signals pool (fallback, some b) = send b
  after_sampling signals pool (fallback, none) = or_fallback (scan signals pool fallback)

  pub route_on :
      WeightedRandomRouter
      → List BackendId
      → BackendSignals
      → RoutingDecision × WeightedRandomRouter
  route_on r [] signals = (reject bad_gateway, r)
  route_on r (b ∷ rest) signals =
      let (found, r') = sampling (length r.backends) r signals none in
      (after_sampling signals (b ∷ rest) found, r')

  pub route :
      WeightedRandomRouter → BackendPool → BackendSignals → RoutingDecision × WeightedRandomRouter
  unfolding route_on
  route r pool signals = route_on r pool.backends signals

  abbrev pub weighted : Router
  weighted = record {
    State = WeightedRandomRouter;
    route = λ r req pool signals. route r pool signals;
    on_response = λ r decision outcome. r;
  }
