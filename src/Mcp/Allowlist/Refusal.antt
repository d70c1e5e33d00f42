-- ===== src/Mcp/Allowlist/Refusal.antt =====
-- What a compiled allowlist refuses, by the configuration that it is compiled from.
use riftgate.Base.{ℕ, ◌≡◌, refl, Option, none, some, ◌||◌, if◌then◌else◌}
use riftgate.Mcp.Capability.{
  McpRequest, tool_call, tool_list, resource_read, resource_list, prompt_get, prompt_list,
  lifecycle, DenialReason, in_denylist, not_in_allowlist,
}
use riftgate.Mcp.Allowlist.{TenantAllowlist, evaluate, from_config, member, check_resource}
use riftgate.Mcp.Allowlist.Tools.{granted_now, check_tool-from_config}

-- Why a configuration refuses a request, if it does: a tool by the lists and the grants as they are
-- configured, a resource as `check_resource` does, and no other request.
abbrev pub refusal : TenantAllowlist → McpRequest → ℕ → Option DenialReason
refusal cfg (tool_call tool hash) now =
    if member tool cfg.denied_tools
    then some in_denylist
    else if member tool cfg.allowed_tools || granted_now cfg.time_bounded_grants tool now
    then none
    else some not_in_allowlist
refusal cfg (resource_read resource) now = check_resource (from_config cfg) resource
refusal cfg tool_list now = none
refusal cfg resource_list now = none
refusal cfg (prompt_get name) now = none
refusal cfg prompt_list now = none
refusal cfg (lifecycle m) now = none

pub evaluate-refusal :
    (cfg : TenantAllowlist) (request : McpRequest) (now : ℕ)
    → evaluate (from_config cfg) request now ≡ refusal cfg request now
unfolding evaluate
evaluate-refusal cfg (tool_call tool hash) now = check_tool-from_config cfg tool now
evaluate-refusal cfg (resource_read resource) now = refl
evaluate-refusal cfg tool_list now = refl
evaluate-refusal cfg resource_list now = refl
evaluate-refusal cfg (prompt_get name) now = refl
evaluate-refusal cfg prompt_list now = refl
evaluate-refusal cfg (lifecycle m) now = refl
