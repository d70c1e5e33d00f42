-- ===== src/Router/P2/Warmup.antt =====
-- The observations that an estimator counts.
use riftgate.Base.{
  ℕ, ◌+◌, ◌-◌, ◌^◌, ◌≤◌, min, Bool, true, false, Option, none, some, List, [], ◌∷◌, ltb, leb, ◌≡◌,
  refl, arith, length, ltb→lt, inl, inr, Bool-cases,
}
use riftgate.Router.P2.{
  Floats, P2Estimator, new_estimator, observe, observe_all, quantile, hold, place, adjust,
}

abbrev pub is_some {ℓ} : {A : Type ℓ} → Option A → Bool
is_some none = false
is_some (some x) = true

module _ (f : Floats) where
  hold-count : (e : P2Estimator f) (x : f.F) → (hold f e x).count ≡ e.count + 1
  unfolding hold place
  hold-count e x = ground arith

  adjust-count : (i : ℕ) (e : P2Estimator f) → (adjust f i e).count ≡ e.count
  unfolding adjust
  adjust-count i e = ground arith

  observe-count :
      (e : P2Estimator f) (x : f.F)
      → e.count ≤ 2 ^ 32 - 1
      → (observe f e x).count ≡ min (e.count + 1) (2 ^ 32 - 1)
  unfolding observe
  observe-count e x h = elim (Bool-cases (ltb e.count 5)) [
    | inl early ↦ rw early (ground (arith, hold-count e x, ltb→lt _ _ early))
    | inr late ↦ rw (late, adjust-count 3, adjust-count 2, adjust-count 1) refl
  ]

  observe_all-count :
      (xs : List f.F) (e : P2Estimator f)
      → e.count ≤ 2 ^ 32 - 1
      → (observe_all f e xs).count ≡ min (e.count + length xs) (2 ^ 32 - 1)
  unfolding observe_all
  observe_all-count [] e h = grind arith
  observe_all-count (x ∷ xs) e h =
      ground (arith, observe-count e x h, observe_all-count xs (observe f e x))

  -- An estimator has a quantile exactly when at least five observations have been made.
  pub quantile-observe_all :
      (p : f.F) (xs : List f.F)
      → is_some (quantile f (observe_all f (new_estimator f p) xs)) ≡ leb 5 (length xs)
  unfolding quantile new_estimator
  quantile-observe_all p xs = ground (arith, observe_all-count xs (new_estimator f p))
