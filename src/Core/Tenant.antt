-- ===== src/Core/Tenant.antt =====
-- crates/riftgate-core/src/tenant.rs: the tenant of a request by its header; tenant_id_from_key of
-- crates/riftgate/src/mcp.rs is the same function.
mod Tests
pub mod Ids
use riftgate.Base.{
  ℕ, ◌+◌, ◌*◌, ◌%◌, ◌^◌, Bool, true, false, Option, none, some, List, [], ◌∷◌, if◌then◌else◌, ◌==◌,
  Text, codes, parse_below,
}
use Prim.Native.Nat.{bit_xor}
use riftgate.Mcp.Capability.{TenantIdentity}

abbrev pub u32_mod : ℕ
u32_mod = 2 ^ 32

pub parse_u32 : Text → Option ℕ
parse_u32 text = parse_below u32_mod text

-- A round of FNV-1a, with the wrapping product.
pub fnv_step : ℕ → ℕ → ℕ
fnv_step hash b = bit_xor hash b * 16777619 % u32_mod

pub fnv : ℕ → Text → ℕ
unfolding fnv_step
fnv hash [] = hash
fnv hash (b ∷ bs) = fnv (fnv_step hash b) bs

pub tenant_id_from_str : Text → ℕ
unfolding parse_u32 fnv
tenant_id_from_str s = elim (parse_u32 s) [
  | some n ↦ n
  | none ↦ let hash = fnv 2166136261 s in if hash == 0 then 1 else hash
]

-- `HeaderTenantResolver::resolve`, of the header's value where it is a text.
pub resolve : Option Text → TenantIdentity
unfolding tenant_id_from_str
resolve header =
    let raw : Text = elim header [ none ↦ codes "0" | some v ↦ v ] in
    record { tenant = tenant_id_from_str raw; principal = raw }
