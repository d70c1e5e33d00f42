-- ===== src/Router/Weighted/Choice.antt =====
-- What the weighted router's decisions promise about circuits and load.
use riftgate.Base.{
  ℕ, zero, suc, ◌≡◌, ◌≢◌, refl, Bool, true, false, inl, inr, Option, none, some, List, [], ◌∷◌,
  ==_iff, length, arith, Option-cases,
}
use riftgate.Core.Router.{
  BackendId, BackendPool, BackendSignals, RoutingDecision, send, F32, get_signal, contains, targets,
  AvoidsOpen,
}
use riftgate.Router.Weighted.{
  WeightedRandomRouter, is_open_signal, get_or_insert, is_hot, consider, scan, sampling, sample,
  or_fallback, after_sampling, route_on, route, weighted,
}

or_fallback-some :
    (r : Option BackendId × Option BackendId) (c : BackendId)
    → r.1 ≡ some c
    → or_fallback r ≡ send c
or_fallback-some (f, none) c e = cc
or_fallback-some (f, some d) c e = ground arith

module _ (at_threshold : F32 → Bool) where
  abbrev pub IsUsable : BackendSignals → BackendId → Type 0
  IsUsable signals b = is_open_signal (get_signal signals b) ≡ false

  abbrev pub IsCool : BackendSignals → BackendId → Type 0
  IsCool signals b = is_hot at_threshold (get_signal signals b) ≡ false

  -- A loop's fallback and answer: both usable, and the answer cool.
  abbrev Good : BackendSignals → Option BackendId × Option BackendId → Type 0
  Good signals (none, none) = Unit
  Good signals (none, some b) = IsUsable signals b × IsCool signals b
  Good signals (some a, none) = IsUsable signals a
  Good signals (some a, some b) = IsUsable signals a × IsUsable signals b × IsCool signals b

  abbrev GoodFallback : BackendSignals → Option BackendId → Type 0
  GoodFallback signals none = Unit
  GoodFallback signals (some a) = IsUsable signals a

  scan-Good :
      (signals : BackendSignals) (pool : List BackendId) (fallback : Option BackendId)
      → GoodFallback signals fallback
      → Good signals (scan at_threshold signals pool fallback)
  unfolding scan
  scan-Good signals [] none h = tt
  scan-Good signals [] (some a) h = h
  scan-Good signals (b ∷ rest) none h =
      ground (arith, scan-Good signals rest none, scan-Good signals rest (some b))
  scan-Good signals (b ∷ rest) (some a) h = ground (arith, scan-Good signals rest (some a))

  sampling-Good :
      (n : ℕ) (r : WeightedRandomRouter) (signals : BackendSignals) (fallback : Option BackendId)
      → GoodFallback signals fallback
      → Good signals (sampling at_threshold n r signals fallback).0
  unfolding sampling consider
  sampling-Good zero r signals none h = tt
  sampling-Good zero r signals (some a) h = h
  sampling-Good (suc n) r signals none h = ground (
    arith,
    sampling-Good n (sample r).1 signals none,
    sampling-Good n (sample r).1 signals (some (sample r).0),
  )
  sampling-Good (suc n) r signals (some a) h =
      ground (arith, sampling-Good n (sample r).1 signals (some a))

  scan-finds_cool :
      (signals : BackendSignals) (pool : List BackendId) (fallback : Option BackendId)
      (b : BackendId)
      → contains pool b ≡ true
      → IsUsable signals b
      → IsCool signals b
      → (scan at_threshold signals pool fallback).1 ≢ none
  unfolding scan
  scan-finds_cool signals [] fallback b member usable cool = λ e. cc
  scan-finds_cool signals (x ∷ rest) fallback b member usable cool = ground (
    arith,
    ==_iff x b,
    scan-finds_cool signals rest fallback b,
    scan-finds_cool signals rest (get_or_insert fallback x) b,
  )

  scan-keeps :
      (signals : BackendSignals) (pool : List BackendId) (a : BackendId)
      → (scan at_threshold signals pool (some a)).0 ≡ some a
  unfolding scan
  scan-keeps signals [] a = refl
  scan-keeps signals (x ∷ rest) a = ground (arith, scan-keeps signals rest a)

  scan-finds_usable :
      (signals : BackendSignals) (pool : List BackendId) (fallback : Option BackendId)
      (b : BackendId)
      → contains pool b ≡ true
      → IsUsable signals b
      → (scan at_threshold signals pool fallback).0 ≢ none
  unfolding scan
  scan-finds_usable signals [] fallback b member usable = λ e. cc
  scan-finds_usable signals (x ∷ rest) none b member usable =
      ground (arith, ==_iff x b, scan-finds_usable signals rest none b, scan-keeps signals rest x)
  scan-finds_usable signals (x ∷ rest) (some a) b member usable =
      ground (arith, scan-keeps signals (x ∷ rest) a, scan-keeps signals rest a)

  after_sampling-Good :
      (signals : BackendSignals) (pool : List BackendId)
      (found : Option BackendId × Option BackendId) (b : BackendId)
      → Good signals found
      → contains (targets (after_sampling at_threshold signals pool found)) b ≡ true
      → IsUsable signals b
  unfolding after_sampling
  after_sampling-Good signals pool (none, none) b h e =
      ground (arith, scan-Good signals pool none tt)
  after_sampling-Good signals pool (some a, none) b h e =
      ground (arith, scan-Good signals pool (some a) h)
  after_sampling-Good signals pool (none, some c) b h e = ground arith
  after_sampling-Good signals pool (some a, some c) b h e = ground arith

  route_on-IsUsable :
      (r : WeightedRandomRouter) (pool : List BackendId) (signals : BackendSignals) (b : BackendId)
      → contains (targets (route_on at_threshold r pool signals).0) b ≡ true
      → IsUsable signals b
  unfolding route_on
  route_on-IsUsable r [] signals b e = cc
  route_on-IsUsable r (x ∷ rest) signals b e =
      after_sampling-Good signals (x ∷ rest) _ b
        (sampling-Good (length r.backends) r signals none tt) e

  -- No decision names a backend whose circuit is open, whatever the table, the random state, the
  -- pool and the signals.
  pub weighted-AvoidsOpen : AvoidsOpen (weighted at_threshold)
  unfolding route
  weighted-AvoidsOpen r req pool signals b e =
      λ shut. ground (arith, route_on-IsUsable r pool.backends signals b e)

  abbrev NotRejected : RoutingDecision → Type 0
  NotRejected d = (b : BackendId) × (d ≡ send b)

  after_sampling-sends :
      (signals : BackendSignals) (pool : List BackendId)
      (found : Option BackendId × Option BackendId) (b : BackendId)
      → contains pool b ≡ true
      → IsUsable signals b
      → NotRejected (after_sampling at_threshold signals pool found)
  unfolding after_sampling
  after_sampling-sends signals pool (fallback, some c) b member usable = (c, refl)
  after_sampling-sends signals pool (fallback, none) b member usable =
      sends (scan at_threshold signals pool fallback)
        (scan-finds_usable signals pool fallback b member usable)
    where
      sends : (r : Option BackendId × Option BackendId) → r.0 ≢ none → NotRejected (or_fallback r)
      sends (f, some c) h = (c, refl)
      sends (some f, none) h = (f, refl)
      sends (none, none) h = absurd (h refl)

  route_on-sends :
      (r : WeightedRandomRouter) (pool : List BackendId) (signals : BackendSignals) (b : BackendId)
      → contains pool b ≡ true
      → IsUsable signals b
      → NotRejected (route_on at_threshold r pool signals).0
  unfolding route_on
  route_on-sends r [] signals b member usable = cc
  route_on-sends r (x ∷ rest) signals b member usable =
      after_sampling-sends signals (x ∷ rest) _ b member usable

  -- As soon as one backend of the pool has a circuit that is not open, the request is sent.
  pub route-sends :
      (r : WeightedRandomRouter) (pool : BackendPool) (signals : BackendSignals) (b : BackendId)
      → contains pool.backends b ≡ true
      → IsUsable signals b
      → (c : BackendId) × ((route at_threshold r pool signals).0 ≡ send c)
  unfolding route
  route-sends r pool signals b member usable =
      route_on-sends r pool.backends signals b member usable

  Good-answer :
      (signals : BackendSignals) (found : Option BackendId × Option BackendId) (c : BackendId)
      → Good signals found
      → found.1 ≡ some c
      → IsUsable signals c × IsCool signals c
  Good-answer signals (none, none) c h e = cc
  Good-answer signals (some a, none) c h e = cc
  Good-answer signals (none, some b) c h e = ground arith
  Good-answer signals (some a, some b) c h e = ground arith

  Good-fallback :
      (signals : BackendSignals) (fallback : Option BackendId)
      → Good signals (fallback, none)
      → GoodFallback signals fallback
  Good-fallback signals none h = tt
  Good-fallback signals (some a) h = h

  abbrev SentCool : BackendSignals → RoutingDecision → Type 0
  SentCool signals d = (c : BackendId) × (d ≡ send c) × IsUsable signals c × IsCool signals c

  after_sampling-SentCool :
      (signals : BackendSignals) (pool : List BackendId)
      (found : Option BackendId × Option BackendId) (b : BackendId)
      → Good signals found
      → contains pool b ≡ true
      → IsUsable signals b
      → IsCool signals b
      → SentCool signals (after_sampling at_threshold signals pool found)
  unfolding after_sampling
  after_sampling-SentCool signals pool (fallback, some c) b h member usable cool =
      let good = Good-answer signals (fallback, some c) c h refl in (c, refl, good.0, good.1)
  after_sampling-SentCool signals pool (fallback, none) b h member usable cool =
      let found = scan at_threshold signals pool fallback in
      elim (Option-cases found.1) [
        | inl e ↦ absurd (scan-finds_cool signals pool fallback b member usable cool e)
        | inr (c, e) ↦
            let good =
              Good-answer signals found c
                (scan-Good signals pool fallback (Good-fallback signals fallback h)) e in
            (c, or_fallback-some found c e, good.0, good.1)
      ]

  route_on-SentCool :
      (r : WeightedRandomRouter) (pool : List BackendId) (signals : BackendSignals) (b : BackendId)
      → contains pool b ≡ true
      → IsUsable signals b
      → IsCool signals b
      → SentCool signals (route_on at_threshold r pool signals).0
  unfolding route_on
  route_on-SentCool r [] signals b member usable cool = absurd (cc member)
  route_on-SentCool r (x ∷ rest) signals b member usable cool =
      after_sampling-SentCool signals (x ∷ rest) _ b
        (sampling-Good (length r.backends) r signals none tt) member usable cool

  -- As soon as one backend of the pool is neither open nor hot, the request is sent to a backend
  -- that is neither open nor hot.
  pub route-IsCool :
      (r : WeightedRandomRouter) (pool : BackendPool) (signals : BackendSignals) (b : BackendId)
      → contains pool.backends b ≡ true
      → IsUsable signals b
      → IsCool signals b
      → (c : BackendId) × ((route at_threshold r pool signals).0 ≡ send c)
        × IsUsable signals c
        × IsCool signals c
  unfolding route
  route-IsCool r pool signals b member usable cool =
      route_on-SentCool r pool.backends signals b member usable cool
