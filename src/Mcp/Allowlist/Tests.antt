-- ===== src/Mcp/Allowlist/Tests.antt =====
-- An allowlist with two grants and two prefixes.
use riftgate.Base.{
  ℕ, ◌≡◌, refl, ◌++◌, true, none, some, List, [], ◌∷◌, map, if◌then◌else◌, ◌||◌, Text, codes,
  is_prefix, text_eq_sound, sym, ◌∙◌, arith,
}
use riftgate.Mcp.Capability.{not_in_allowlist, in_denylist}
use riftgate.Mcp.Allowlist.{
  TimeBoundedGrant, TenantAllowlist, member, from_config, check_tool, check_resource, trim_stars,
}
use riftgate.Mcp.Allowlist.Tools.{granted_now, check_tool-from_config}
use riftgate.Mcp.Allowlist.Search.{some_prefix, Unnested}
use riftgate.Mcp.Allowlist.Resources.{check_resource-from_config, check_resource-shadowed}

abbrev grant : ℕ → Text → TimeBoundedGrant
grant until tool = record { tool = tool; until_unix_secs = until }

abbrev tenant : TenantAllowlist
tenant = record {
  allowed_tools = codes "search" ∷ codes "shell" ∷ [];
  denied_tools = codes "shell" ∷ [];
  allowed_resource_prefixes = codes "file://*" ∷ [];
  time_bounded_grants = grant 9 (codes "deploy") ∷ grant 3 (codes "merge") ∷ [];
}

deploy_live : check_tool (from_config tenant) (codes "deploy") 4000000000 ≡ none
unfolding from_config check_tool
deploy_live = refl

merge_over : check_tool (from_config tenant) (codes "merge") 4000000000 ≡ some not_in_allowlist
unfolding from_config check_tool
merge_over = refl

check_tool-from_config_example : check_tool (from_config tenant) (codes "deploy") 4000000000 ≡ (
    if member (codes "deploy") tenant.denied_tools
    then some in_denylist
    else if member (codes "deploy") tenant.allowed_tools
        || granted_now tenant.time_bounded_grants (codes "deploy") 4000000000
    then none
    else some not_in_allowlist)
check_tool-from_config_example = check_tool-from_config tenant (codes "deploy") 4000000000

abbrev prefixes : List Text
prefixes = map trim_stars tenant.allowed_resource_prefixes

one-Unnested : (t : Text) → Unnested (t ∷ [])
one-Unnested t p q hp hq pre =
    sym (text_eq_sound t p (ground (arith, hp))) ∙ text_eq_sound t q (ground (arith, hq))

prefixes-Unnested : Unnested prefixes
unfolding trim_stars
prefixes-Unnested = one-Unnested (codes "file://")

abbrev uri : Text
uri = codes "file:///a"

check_resource-from_config_example :
    check_resource (from_config tenant) uri
    ≡ (if some_prefix prefixes uri then none else some not_in_allowlist)
check_resource-from_config_example = check_resource-from_config tenant uri prefixes-Unnested

abbrev nested : TenantAllowlist
nested = record tenant { allowed_resource_prefixes = codes "/a" ∷ codes "/ab" ∷ [] }

nested_prefixes :
    map trim_stars nested.allowed_resource_prefixes ≡ codes "/a" ∷ (codes "/a" ++ b'b' ∷ []) ∷ []
unfolding trim_stars
nested_prefixes = refl

check_resource-shadowed_example :
    (check_resource (from_config nested) (codes "/a" ++ b'c' ∷ []) ≡ some not_in_allowlist)
    × (is_prefix (codes "/a") (codes "/a" ++ b'c' ∷ []) ≡ true)
check_resource-shadowed_example =
    check_resource-shadowed nested (codes "/a") [] b'b' b'c' nested_prefixes (omega arith)
