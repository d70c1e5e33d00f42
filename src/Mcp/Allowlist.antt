-- ===== src/Mcp/Allowlist.antt =====
-- crates/riftgate-mcp/src/allowlist.rs: the allowlist of one tenant, compiled and queried.
mod Tests
pub mod Tools
pub mod Refusal
pub mod Search
pub mod Resources
use riftgate.Base.{
  ℕ, zero, suc, ◌+◌, ◌*◌, ◌-◌, ◌<◌, Bool, true, false, ◌&&◌, ◌||◌, not, Option, none, some, List,
  [], ◌∷◌, map, ltb, leb, ◌==◌, if◌then◌else◌, length, get_elem?, drop, Text, text_eq, text_le,
  is_prefix,
}
use riftgate.Mcp.Capability.{
  McpRequest, tool_call, tool_list, resource_read, resource_list, prompt_get, prompt_list,
  lifecycle, DenialReason, not_in_allowlist, in_denylist,
}

pub record TimeBoundedGrant : Type 0 where
  pub tool : Text
  pub until_unix_secs : ℕ

pub record TenantAllowlist : Type 0 where
  pub allowed_tools : List Text
  pub denied_tools : List Text
  pub allowed_resource_prefixes : List Text
  pub time_bounded_grants : List TimeBoundedGrant

-- A set of tools is a list that is only asked for membership.
pub record CompiledAllowlist : Type 0 where
  pub allowed_tools : List Text
  pub denied_tools : List Text
  pub resource_prefixes : List Text
  pub time_bounded_grants : List (ℕ × Text)

abbrev pub member : Text → List Text → Bool
member t [] = false
member t (x ∷ xs) = text_eq x t || member t xs

abbrev star : ℕ
star = b'*'

abbrev is_empty : Text → Bool
is_empty [] = true
is_empty (x ∷ xs) = false

-- `trim_end_matches('*')`.
pub trim_stars : Text → Text
trim_stars [] = []
trim_stars (x ∷ xs) =
    let rest = trim_stars xs in if is_empty rest && x == star then [] else x ∷ rest

-- `sort_unstable`: equal texts are the same text.
pub insert_text : Text → List Text → List Text
insert_text t [] = t ∷ []
insert_text t (x ∷ xs) = if text_le t x then t ∷ x ∷ xs else x ∷ insert_text t xs

pub sort_texts : List Text → List Text
unfolding insert_text
sort_texts [] = []
sort_texts (x ∷ xs) = insert_text x (sort_texts xs)

-- `sort_unstable_by_key`; the order of grants with one expiry is not fixed, and not used.
pub insert_grant : ℕ × Text → List (ℕ × Text) → List (ℕ × Text)
insert_grant g [] = g ∷ []
insert_grant g (x ∷ xs) = if leb g.0 x.0 then g ∷ x ∷ xs else x ∷ insert_grant g xs

pub sort_grants : List (ℕ × Text) → List (ℕ × Text)
unfolding insert_grant
sort_grants [] = []
sort_grants (x ∷ xs) = insert_grant x (sort_grants xs)

abbrev pub secs : ℕ → ℕ
secs n = n * 1000000000

abbrev pub compile_grant : TimeBoundedGrant → ℕ × Text
compile_grant g = (secs g.until_unix_secs, g.tool)

pub from_config : TenantAllowlist → CompiledAllowlist
unfolding trim_stars sort_texts sort_grants
from_config cfg = record {
  allowed_tools = cfg.allowed_tools;
  denied_tools = cfg.denied_tools;
  resource_prefixes = sort_texts (map trim_stars cfg.allowed_resource_prefixes);
  time_bounded_grants = sort_grants (map compile_grant cfg.time_bounded_grants);
}

-- `partition_point`: how many elements at the head pass the test; on a sorted vector, where the
-- code calls it, that is where the binary search ends.
pub partition_point {ℓ} : {A : Type ℓ} → (A → Bool) → List A → ℕ
partition_point test [] = 0
partition_point test (x ∷ xs) = if test x then suc (partition_point test xs) else 0

abbrev pub any {ℓ} : {A : Type ℓ} → (A → Bool) → List A → Bool
any test [] = false
any test (x ∷ xs) = test x || any test xs

pub has_active_grant : CompiledAllowlist → Text → ℕ → Bool
unfolding partition_point
has_active_grant a tool now =
    any (λ (g : ℕ × Text). text_eq g.1 tool)
      (drop (partition_point (λ (g : ℕ × Text). leb g.0 now) a.time_bounded_grants)
        a.time_bounded_grants)

pub check_tool : CompiledAllowlist → Text → ℕ → Option DenialReason
unfolding has_active_grant
check_tool a tool now =
    if member tool a.denied_tools
    then some in_denylist
    else if member tool a.allowed_tools
    then none
    else if has_active_grant a tool now
    then none
    else some not_in_allowlist

-- Whether the prefix at an index, if there is one, is a prefix of the text.
abbrev pub prefix_at : List Text → ℕ → Text → Bool
prefix_at prefixes i uri = elim (get_elem? prefixes i) [ none ↦ false | some p ↦ is_prefix p uri ]

abbrev pub is_none_left : List Text → Bool
is_none_left [] = true
is_none_left (x ∷ xs) = false

pub resource_prefix_matches : CompiledAllowlist → Text → Bool
unfolding partition_point
resource_prefix_matches a uri =
    let pos = partition_point (λ p. text_le p uri) a.resource_prefixes in
    if is_none_left a.resource_prefixes
    then false
    else (ltb 0 pos && prefix_at a.resource_prefixes (pos - 1) uri)
      || (ltb pos (length a.resource_prefixes) && prefix_at a.resource_prefixes pos uri)

pub check_resource : CompiledAllowlist → Text → Option DenialReason
unfolding resource_prefix_matches
check_resource a uri = if resource_prefix_matches a uri then none else some not_in_allowlist

pub evaluate : CompiledAllowlist → McpRequest → ℕ → Option DenialReason
unfolding check_tool check_resource
evaluate a (tool_call tool hash) now = check_tool a tool now
evaluate a (resource_read resource) now = check_resource a resource
evaluate a tool_list now = none
evaluate a resource_list now = none
evaluate a prompt_list now = none
evaluate a (prompt_get name) now = none
evaluate a (lifecycle m) now = none
