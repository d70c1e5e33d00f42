-- ===== src/Obs/Reservoir.antt =====
-- crates/riftgate-obs/src/token_level/reservoir.rs: reservoir sampling.
mod Tests
pub mod Samples
use riftgate.Base.{ℕ, ◌+◌, ◌^◌, ◌%◌, List, [], ◌∷◌, ◌++◌, ltb, leb, if◌then◌else◌, set}

-- The count stays below 2^64.
pub record VitterReservoir {ℓ} (A : Type ℓ) : Type ℓ where
  pub capacity : ℕ
  pub items : List A
  pub count : ℕ

abbrev pub new {ℓ} : {A : Type ℓ} → ℕ → VitterReservoir A
new capacity = record { capacity = capacity; items = []; count = 0 }

-- `j` is what `gen_range(0..n)` of the crate rand gives where it is asked, for the count `n`.
pub add {ℓ} : {A : Type ℓ} → VitterReservoir A → ℕ → A → VitterReservoir A
add r j item =
    let n = r.count + 1 in
    if leb n r.capacity
    then record { capacity = r.capacity; items = r.items ++ item ∷ []; count = n }
    else if ltb j r.capacity
    then record { capacity = r.capacity; items = set r.items j item; count = n }
    else record { capacity = r.capacity; items = r.items; count = n }
