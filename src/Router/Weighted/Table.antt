-- ===== src/Router/Weighted/Table.antt =====
-- The alias table holds configured backends only, and the random state never gets stuck.
use Prim.Native.Nat.{bit_xor}
use native.Mathlib.Nat.{mod-lt}
use riftgate.Base.{
  ℕ, zero, suc, ◌+◌, ◌*◌, ◌/◌, ◌%◌, ◌^◌, ◌<◌, ◌≤◌, ◌≡◌, ◌≢◌, refl, max, true, some, List, [], ◌∷◌,
  map, ==_refl, length, get_elem?, set, length-set, arith, All, All-set, All-get_elem?,
  get_elem?-lt, bit_xor-zero, ap, ◌∙◌,
}
use riftgate.Core.Router.{BackendId, contains}
use riftgate.Router.Weighted.{
  WeightedRandomRouter, AliasEntry, Weights, Build, u64_mod, id_at, whole, classify, pair_up,
  pairing, settle, scaled_of, total, build_table, with_seed, xorshift64, next_u64, sample, pick,
}

abbrev pub ids : Weights → List BackendId
ids = map (λ (w : BackendId × ℕ). w.0)

-- Both backends of an entry are configured.
abbrev pub Named : Weights → AliasEntry → Type 0
Named weights e =
    (contains (ids weights) e.primary ≡ true) × (contains (ids weights) e.alias ≡ true)

contains-id_at :
    (weights : Weights) (i : ℕ)
    → i < length weights
    → contains (ids weights) (id_at weights i) ≡ true
contains-id_at [] i h = elim h [ ]
contains-id_at ((b, w) ∷ rest) zero h = ground (arith, ==_refl b)
contains-id_at ((b, w) ∷ rest) (suc i) h = ground (arith, contains-id_at rest i)

abbrev Below : ℕ → List ℕ → Type 0
Below n = All (λ i. i < n)

classify-Below :
    (n i : ℕ) (scaled : List ℕ) (small large : List ℕ)
    → i + length scaled ≤ n
    → Below n small
    → Below n large
    → Below n (classify i scaled (small, large)).0 × Below n (classify i scaled (small, large)).1
unfolding classify
classify-Below n i [] small large h p q = (p, q)
classify-Below n i (s ∷ rest) small large h p q = ground (
  arith,
  classify-Below n (i + 1) rest (i ∷ small) large,
  classify-Below n (i + 1) rest small (i ∷ large),
)

length-scaled_of :
    (n sum : ℕ) (weights : Weights) → length (scaled_of n sum weights) ≡ length weights
unfolding scaled_of
length-scaled_of n sum [] = refl
length-scaled_of n sum ((b, w) ∷ rest) = ap suc (length-scaled_of n sum rest)

record IsBuild (weights : Weights) (st : Build) : Type 0 where
  named : All (Named weights) st.table
  size : length st.table ≡ length weights
  smalls : Below (length weights) st.small
  larges : Below (length weights) st.large

pair_up-IsBuild :
    (weights : Weights) (st : Build) (s l : ℕ) (small large : List ℕ)
    → s < length weights
    → l < length weights
    → Below (length weights) small
    → Below (length weights) large
    → IsBuild weights st
    → IsBuild weights (pair_up weights st s l small large)
unfolding pair_up
pair_up-IsBuild weights st s l small large hs hl p q v = record {
  named =
      All-set (Named weights) st.table s _
        (contains-id_at weights s hs, contains-id_at weights l hl) v.named;
  size = length-set st.table s _ ∙ v.size;
  smalls = ground arith;
  larges = ground arith;
}

pairing-IsBuild :
    (fuel : ℕ) (weights : Weights) (st : Build) (small large : List ℕ)
    → Below (length weights) small
    → Below (length weights) large
    → IsBuild weights st
    → IsBuild weights (pairing fuel weights st small large)
unfolding pairing
pairing-IsBuild zero weights st small large p q v = record {
  named = v.named;
  size = v.size;
  smalls = p;
  larges = q;
}
pairing-IsBuild (suc fuel) weights st [] [] p q v = record {
  named = v.named;
  size = v.size;
  smalls = p;
  larges = q;
}
pairing-IsBuild (suc fuel) weights st [] (l ∷ large) p q v = record {
  named = v.named;
  size = v.size;
  smalls = p;
  larges = q.1;
}
pairing-IsBuild (suc fuel) weights st (s ∷ small) [] p q v = record {
  named = v.named;
  size = v.size;
  smalls = p.1;
  larges = q;
}
pairing-IsBuild (suc fuel) weights st (s ∷ small) (l ∷ large) p q v =
    let st' = pair_up weights st s l small large in
    let v' = pair_up-IsBuild weights st s l small large p.0 q.0 p.1 q.1 v in
    pairing-IsBuild fuel weights st' st'.small st'.large v'.smalls v'.larges v'

settle-Named :
    (weights : Weights) (stack : List ℕ) (table : List AliasEntry)
    → Below (length weights) stack
    → All (Named weights) table
    → All (Named weights) (settle weights stack table)
      × (length (settle weights stack table) ≡ length table)
unfolding settle
settle-Named weights [] table p h = (h, refl)
settle-Named weights (i ∷ rest) table p h =
    let named = contains-id_at weights i p.0 in
    let (a, b) =
      settle-Named weights rest (set table i (whole (id_at weights i, 0))) p.1
        (All-set (Named weights) table i _ (named, named) h) in
    (a, b ∙ length-set table i _)

map-whole :
    (all part : Weights)
    → All (λ (w : BackendId × ℕ). contains (ids all) w.0 ≡ true) part
    → All (Named all) (map whole part) × (length (map whole part) ≡ length part)
map-whole all [] h = (tt, refl)
map-whole all ((b, w) ∷ rest) h = let (p, q) = map-whole all rest h.1 in (((h.0, h.0), p), ap suc q)

contains-weaken :
    (b : BackendId) (all part : Weights)
    → All (λ (w : BackendId × ℕ). contains (ids all) w.0 ≡ true) part
    → All (λ (w : BackendId × ℕ). contains (b ∷ ids all) w.0 ≡ true) part
contains-weaken b all [] h = tt
contains-weaken b all ((c, w) ∷ rest) h = (ground (arith, h.0), contains-weaken b all rest h.1)

contains-All :
    (weights : Weights) → All (λ (w : BackendId × ℕ). contains (ids weights) w.0 ≡ true) weights
contains-All [] = tt
contains-All ((b, w) ∷ rest) =
    (ground (arith, ==_refl b), contains-weaken b rest rest (contains-All rest))

build_table-Named :
    (weights : Weights)
    → All (Named weights) (build_table weights) × (length (build_table weights) ≡ length weights)
unfolding build_table
build_table-Named weights =
    let n = length weights in
    let scaled = scaled_of n (total weights) weights in
    let stacks = classify 0 scaled ([], []) in
    let start : Build = record {
      scaled = scaled;
      small = stacks.0;
      large = stacks.1;
      table = map whole weights;
    } in
    let below =
      classify-Below n 0 scaled [] [] (omega (arith, length-scaled_of n (total weights) weights)) tt
        tt in
    let filled = map-whole weights weights (contains-All weights) in
    let v =
      pairing-IsBuild (n + 1) weights start stacks.0 stacks.1 below.0 below.1
        (record { named = filled.0; size = filled.1; smalls = below.0; larges = below.1 }) in
    let done = pairing (n + 1) weights start stacks.0 stacks.1 in
    let (p, q) = settle-Named weights done.large done.table v.larges v.named in
    let (p', q') =
      settle-Named weights done.small (settle weights done.large done.table) v.smalls p in
    (p', q' ∙ q ∙ v.size)

-- A router over these weights: every entry is configured, there is an entry for each weight, and
-- the random state is not 0.
pub record IsRouter (weights : Weights) (r : WeightedRandomRouter) : Type 0 where
  pub named : All (Named weights) r.table
  pub size : length r.table ≡ length weights
  pub some_backend : 0 < length weights
  pub awake : r.rng_state ≢ 0

with_seed-IsRouter :
    (weights : Weights) (seed : ℕ) (r : WeightedRandomRouter)
    → with_seed weights seed ≡ some r
    → IsRouter weights r
unfolding with_seed
with_seed-IsRouter weights seed r h = record {
  named = ground (arith, (build_table-Named weights).0);
  size = ground (arith, (build_table-Named weights).1);
  some_backend = ground arith;
  awake = ground arith;
}

-- None of the three steps makes 0 of another number.
xor_left-awake : (x : ℕ) → x ≢ 0 → bit_xor x (x * 2 ^ 13 % u64_mod) ≢ 0
xor_left-awake x h = λ e. h (omega (arith, bit_xor-zero x (x * 2 ^ 13 % u64_mod) e))

xor_right-awake : (x : ℕ) → x ≢ 0 → bit_xor x (x / 2 ^ 7) ≢ 0
xor_right-awake x h = λ e. h (omega (arith, bit_xor-zero x (x / 2 ^ 7) e))

xor_last-awake : (x : ℕ) → x ≢ 0 → bit_xor x (x * 2 ^ 17 % u64_mod) ≢ 0
xor_last-awake x h = λ e. h (omega (arith, bit_xor-zero x (x * 2 ^ 17 % u64_mod) e))

pub xorshift64-awake : (x : ℕ) → x ≢ 0 → xorshift64 x ≢ 0
unfolding xorshift64
xorshift64-awake x h = xor_last-awake _ (xor_right-awake _ (xor_left-awake x h))

pick-configured :
    (weights : Weights) (r : WeightedRandomRouter) (bucket coin : ℕ)
    → IsRouter weights r
    → bucket < length r.table
    → contains (ids weights) (pick (get_elem? r.table bucket) coin) ≡ true
pick-configured weights r bucket coin v h =
    let (entry, e) = get_elem?-lt r.table bucket h in
    let named = All-get_elem? (Named weights) r.table bucket entry v.named e in
    rw e (ground (arith, named.0, named.1))

sample-IsRouter :
    (weights : Weights) (r : WeightedRandomRouter)
    → IsRouter weights r
    → IsRouter weights (sample r).1 × (contains (ids weights) (sample r).0 ≡ true)
unfolding sample next_u64
sample-IsRouter weights r v = (
  record {
    named = v.named;
    size = v.size;
    some_backend = v.some_backend;
    awake = xorshift64-awake (max r.rng_state 1) (omega arith);
  },
  pick-configured weights r _ _ v (mod-lt _ (omega (arith, v.size, v.some_backend))),
)

-- The router after `n` samples.
pub after_samples : ℕ → WeightedRandomRouter → WeightedRandomRouter
after_samples zero r = r
after_samples (suc n) r = after_samples n (sample r).1

after_samples-IsRouter :
    (n : ℕ) (weights : Weights) (r : WeightedRandomRouter)
    → IsRouter weights r
    → IsRouter weights (after_samples n r)
unfolding after_samples
after_samples-IsRouter zero weights r v = v
after_samples-IsRouter (suc n) weights r v =
    after_samples-IsRouter n weights (sample r).1 (sample-IsRouter weights r v).0

-- A router that the constructor accepts draws, at every sample, a backend of its configuration;
-- and the random state that the sample starts from is never 0, the one state at which the exchange
-- loop of `next_u64` would not end.
pub sample-configured :
    (weights : Weights) (seed n : ℕ) (r : WeightedRandomRouter)
    → with_seed weights seed ≡ some r
    → (contains (ids weights) (sample (after_samples n r)).0 ≡ true)
      × ((after_samples n r).rng_state ≢ 0)
sample-configured weights seed n r h =
    let v = after_samples-IsRouter n weights r (with_seed-IsRouter weights seed r h) in
    ((sample-IsRouter weights (after_samples n r) v).1, v.awake)
