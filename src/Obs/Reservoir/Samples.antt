-- ===== src/Obs/Reservoir/Samples.antt =====
-- What stands in a reservoir.
use riftgate.Base.{
  ℕ, ◌+◌, ◌≡◌, refl, ◌∙◌, List, [], ◌∷◌, ltb, leb, leb→le, length, length-append, length-set, min,
  All, All-append, All-set, arith, Bool-cases, inl, inr,
}
use riftgate.Obs.Reservoir.{VitterReservoir, new, add}

module _ {ℓ} {A : Type ℓ} where
  -- The items of a run with their random numbers, put in one after the other.
  unfoldable pub add_all : VitterReservoir A → List (ℕ × A) → VitterReservoir A
  add_all r [] = r
  add_all r ((j, item) ∷ rest) = add_all (add r j item) rest

  -- It has as many samples as items came, up to the capacity, and `P` of each.
  abbrev pub IsSampled {κ} : (A → Type κ) → VitterReservoir A → Type κ
  IsSampled P r = (length r.items ≡ min r.count r.capacity) × All P r.items

  add-IsSampled {κ} :
      (P : A → Type κ) (r : VitterReservoir A) (j : ℕ) (item : A)
      → P item
      → IsSampled P r
      → IsSampled P (add r j item)
        × ((add r j item).count ≡ r.count + 1)
        × ((add r j item).capacity ≡ r.capacity)
  unfolding add
  add-IsSampled P r j item p (size, all) = elim (Bool-cases (leb (r.count + 1) r.capacity)) [
    | inl room ↦
        let le = leb→le _ _ room in
        rw (add, room)
          (
            (
              omega (arith, size, le, length-append r.items (item ∷ [])),
              All-append P r.items (item ∷ []) all (p, tt),
            ),
            refl,
            refl,
          )
    | inr full ↦ elim (Bool-cases (ltb j r.capacity)) [
      | inl hit ↦
          rw (add, full, hit)
            (
              (
                ground (arith, size, full, length-set r.items j item),
                All-set P r.items j item p all,
              ),
              refl,
              refl,
            )
      | inr miss ↦ rw (add, full, miss) ((ground (arith, size, full), all), refl, refl)
    ]
  ]

  add_all-IsSampled_from {κ} :
      (P : A → Type κ) (run : List (ℕ × A)) (r : VitterReservoir A)
      → All (λ (x : ℕ × A). P x.1) run
      → IsSampled P r
      → IsSampled P (add_all r run)
        × ((add_all r run).count ≡ r.count + length run)
        × ((add_all r run).capacity ≡ r.capacity)
  unfolding add_all
  add_all-IsSampled_from P [] r v well = (well, omega arith, refl)
  add_all-IsSampled_from P ((j, item) ∷ rest) r (p, v) well =
      let (now, count, capacity) = add-IsSampled P r j item p well in
      let (then_well, then_count, then_capacity) =
        add_all-IsSampled_from P rest (add r j item) v now in
      (then_well, omega (arith, count, then_count), then_capacity ∙ capacity)

  -- Whatever the random numbers are, a reservoir that took a run of items counts them all, has as
  -- many samples as items came, up to its capacity, and every sample is an item of the run: what
  -- holds of all items holds of all samples.
  pub add_all-IsSampled {κ} :
      (P : A → Type κ) (capacity : ℕ) (run : List (ℕ × A))
      → All (λ (x : ℕ × A). P x.1) run
      → (length (add_all (new capacity) run).items ≡ min (length run) capacity)
        × All P (add_all (new capacity) run).items
        × ((add_all (new {A = A} capacity) run).count ≡ length run)
  add_all-IsSampled P capacity run v =
      let ((size, all), count, same) =
        add_all-IsSampled_from P run (new capacity) v (omega arith, tt) in
      (omega (arith, size, count, same), all, omega (arith, count))
