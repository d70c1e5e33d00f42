-- ===== src/Base/Maps.antt =====
-- Hash maps that are only looked up and written: a function from keys, with the write at one key.
use mathlib.Core.Logic.{ite, if_pos, if_neg, ◌≢◌}
use mathlib.Core.Option.{Option, some, none}
use mathlib.Core.Path.{◌≡◌, refl, subst}

abbrev pub Map {ℓ κ} : Type ℓ → Type κ → Type (ℓ ⊔ κ)
Map K V = K → Option V

module _ {ℓ κ} {K : Type ℓ} {V : Type κ} (d : Discrete K) where
  -- `map.insert(k, v)`
  abbrev pub put : Map K V → K → V → Map K V
  put m k v j = ite (d k j) (some v) (m j)

  -- `map.remove(k)`
  abbrev pub without : Map K V → K → Map K V
  without m k j = ite (d k j) none (m j)

  pub put_self : (m : Map K V) (k : K) (v : V) → put m k v k ≡ some v
  put_self m k v = rw (if_pos _ refl)

  pub put_other : (m : Map K V) (k j : K) (v : V) → k ≢ j → put m k v j ≡ m j
  put_other m k j v h = rw (if_neg _ h)

  -- What holds of every value holds after a write of a value that has it.
  pub put-All {μ} :
      (P : V → Type μ) (m : Map K V) (k : K) (v : V)
      → ((j : K) (w : V) → m j ≡ some w → P w)
      → P v
      → (j : K) (w : V) → put m k v j ≡ some w
      → P w
  put-All P m k v old new j w e = elim (d k j) [
    | yes p ↦ subst P (cc (rw (if_pos _ p) at e)) new
    | no p ↦ old j w (rw (if_neg _ p) at e)
  ]
