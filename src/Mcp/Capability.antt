-- ===== src/Mcp/Capability.antt =====
-- crates/riftgate-core/src/capability.rs: requests, decisions and audit events of the MCP plane.
use riftgate.Base.{ℕ, Text, codes}
use riftgate.Core.Request.{Bytes}

pub data LifecycleMethod : Type 0 where
  initialize ping shutdown : LifecycleMethod

-- A tool or a resource is its text; a hash is its 32 bytes.
pub data McpRequest : Type 0 where
  tool_call : Text → Bytes → McpRequest
  tool_list : McpRequest
  resource_read : Text → McpRequest
  resource_list : McpRequest
  prompt_get : Text → McpRequest
  prompt_list : McpRequest
  lifecycle : LifecycleMethod → McpRequest

pub record TenantIdentity : Type 0 where
  pub tenant : ℕ
  pub principal : Text

pub data DenialReason : Type 0 where
  not_in_allowlist in_denylist time_bound_grant_expired malformed_mcp_request tenant_unknown :
      DenialReason

pub as_header_value : DenialReason → Text
as_header_value not_in_allowlist = codes "not_in_allowlist"
as_header_value in_denylist = codes "in_denylist"
as_header_value time_bound_grant_expired = codes "time_bound_grant_expired"
as_header_value malformed_mcp_request = codes "malformed_mcp_request"
as_header_value tenant_unknown = codes "tenant_unknown"

pub record AttestationHeaders : Type 0 where
  pub caller : ℕ
  pub subject : Text
  pub decision : Text
  pub signature : Bytes

pub data CapabilityDecision : Type 0 where
  allow : AttestationHeaders → CapabilityDecision
  deny : DenialReason → CapabilityDecision

pub data AuditDecision : Type 0 where
  audit_allow audit_deny : AuditDecision

-- A time is a number of nanoseconds since the Unix epoch.
pub record McpAuditEvent : Type 0 where
  pub correlation_id : ℕ
  pub tenant : ℕ
  pub subject : Text
  pub argument_hash : Bytes
  pub decision : AuditDecision
  pub timestamp : ℕ

-- The two functions `request_subject` of allowlist.rs and dryrun.rs, which are the same.
unfoldable pub request_subject : McpRequest → Text
request_subject (tool_call tool hash) = tool
request_subject (resource_read resource) = resource
request_subject (prompt_get name) = name
request_subject tool_list = codes "tools/list"
request_subject resource_list = codes "resources/list"
request_subject prompt_list = codes "prompts/list"
request_subject (lifecycle initialize) = codes "initialize"
request_subject (lifecycle ping) = codes "ping"
request_subject (lifecycle shutdown) = codes "shutdown"
