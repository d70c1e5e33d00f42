-- ===== src/Core/Tenant/Ids.antt =====
-- The range of the ids.
use riftgate.Base.{
  ℕ, ◌<◌, ◌≡◌, ap, true, some, [], ◌∷◌, if◌then◌else◌, ◌==◌, Text, parse_below-lt, arith,
  Option-cases, Bool-cases, inl, inr,
}
use riftgate.Core.Tenant.{u32_mod, parse_u32, fnv_step, fnv, tenant_id_from_str}

fnv-lt : (hash : ℕ) (text : Text) → hash < u32_mod → fnv hash text < u32_mod
unfolding fnv fnv_step
fnv-lt hash [] h = h
fnv-lt hash (b ∷ bs) h = fnv-lt (fnv_step hash b) bs (omega arith)

hashed_id : ℕ → ℕ
hashed_id hash = if hash == 0 then 1 else hash

hashed_id-lt : (hash : ℕ) → hash < u32_mod → (hashed_id hash < u32_mod) × (hashed_id hash ≡ 0 → ⊥)
unfolding hashed_id
hashed_id-lt hash h = elim (Bool-cases (hash == 0)) [
  | inl none_left ↦ rw none_left (omega arith, λ e. absurd (omega (arith, e)))
  | inr some_hash ↦
      rw some_hash
        (h, λ e. let same : (hash == 0) ≡ true = ground (arith, e) in cc (same, some_hash))
]

-- The id of a text is a 32-bit number, and it is 0 only for a text that reads as the number 0.
pub tenant_id_from_str-lt :
    (s : Text)
    → (tenant_id_from_str s < u32_mod) × (tenant_id_from_str s ≡ 0 → parse_u32 s ≡ some 0)
unfolding tenant_id_from_str parse_u32 hashed_id
tenant_id_from_str-lt s = elim (Option-cases (parse_u32 s)) [
  | inr (n, read) ↦
      rw (tenant_id_from_str, read) (parse_below-lt u32_mod n s (omega arith) read, λ e. ap some e)
  | inl name ↦
      let (small, some_id) = hashed_id-lt (fnv 2166136261 s) (fnv-lt 2166136261 s (omega arith)) in
      rw (tenant_id_from_str, name) (small, λ e. absurd (some_id e))
]
