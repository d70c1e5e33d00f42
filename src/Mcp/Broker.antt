-- ===== src/Mcp/Broker.antt =====
-- crates/riftgate-mcp/src/{allowlist,attestation,dryrun}.rs: the brokers, their signatures and trail.
mod Tests
pub mod Trail
pub mod Binding
use riftgate.Base.{
  ℕ, zero, suc, ◌+◌, ◌*◌, ◌/◌, ◌%◌, ◌^◌, ◌<◌, Bool, true, false, Option, none, some, List, [], ◌∷◌,
  ◌++◌, replicate, if◌then◌else◌, Text, codes, text_eq, Map,
}
use riftgate.Core.Request.{Bytes}
use riftgate.Replay.Frame.{to_le_bytes}
use riftgate.Mcp.Capability.{
  McpRequest, tool_call, tool_list, resource_read, resource_list, prompt_get, prompt_list,
  lifecycle, TenantIdentity, DenialReason, tenant_unknown, AttestationHeaders, CapabilityDecision,
  allow, deny, AuditDecision, audit_allow, audit_deny, McpAuditEvent, request_subject,
}
use riftgate.Mcp.Allowlist.{TenantAllowlist, CompiledAllowlist, from_config, evaluate}
use riftgate.Mcp.Audit.{AuditRecord, Wal, write}

-- The trait: a broker's state with its one operation. A broker reads the clock once in a call.
pub record CapabilityBroker : Type 1 where
  pub State : Type 0
  pub authorize : State → ℕ → McpRequest → TenantIdentity → CapabilityDecision × State

abbrev pub bar : Text
bar = codes "|"

abbrev allow_word : Text
allow_word = codes "allow"

-- HMAC-SHA256 of the crates hmac and sha2 is a parameter: the code of a message under a key.
module _ (hmac : Bytes → Bytes → Bytes) where
  -- The bytes that are signed.
  pub message : ℕ → Text → Text → Bytes
  message caller subject decision = to_le_bytes 4 caller ++ (bar ++ (subject ++ (bar ++ decision)))

  pub sign : ℕ → Text → Bytes → AttestationHeaders
  unfolding message
  sign caller subject key = record {
    caller = caller;
    subject = subject;
    decision = allow_word;
    signature = hmac key (message caller subject allow_word);
  }

  pub verify : AttestationHeaders → Bytes → Bool
  unfolding message
  verify headers key =
      text_eq (hmac key (message headers.caller headers.subject headers.decision)) headers.signature

abbrev hash_of : McpRequest → Bytes
hash_of (tool_call tool hash) = hash
hash_of tool_list = replicate 32 0
hash_of (resource_read resource) = replicate 32 0
hash_of resource_list = replicate 32 0
hash_of (prompt_get name) = replicate 32 0
hash_of prompt_list = replicate 32 0
hash_of (lifecycle m) = replicate 32 0

-- The event that `emit_audit` makes.
pub audit_event : ℕ → McpRequest → TenantIdentity → AuditDecision → ℕ → McpAuditEvent
audit_event correlation_id request identity decision now = record {
  correlation_id = correlation_id;
  tenant = identity.tenant;
  subject = request_subject request;
  argument_hash = hash_of request;
  decision = decision;
  timestamp = now;
}

abbrev pub u64_mod : ℕ
u64_mod = 2 ^ 64

-- The code of a message, the text of a record and the log are parameters.
module _ (hmac : Bytes → Bytes → Bytes) (to_vec : AuditRecord → Option Bytes) (wal : Wal) where
  -- The counter of `RequestId::next`, which all of the process share, stands in the broker.
  pub record AllowlistBroker : Type 0 where
    pub tenants : Map ℕ CompiledAllowlist
    pub signing_key : Bytes
    pub log : wal.State
    pub next_request_id : ℕ

  -- `new`, from the configurations by the tenants' numbers.
  pub new_broker : Map ℕ TenantAllowlist → Bytes → wal.State → ℕ → AllowlistBroker
  new_broker configs key log id = record {
    tenants = λ tenant. elim (configs tenant) [ none ↦ none | some cfg ↦ some (from_config cfg) ];
    signing_key = key;
    log = log;
    next_request_id = id;
  }

  -- A write that fails is only logged to the console: its answer is dropped.
  pub emit_audit :
      AllowlistBroker → McpRequest → TenantIdentity → AuditDecision → ℕ → AllowlistBroker
  unfolding audit_event
  emit_audit b request identity decision now =
      let event = audit_event b.next_request_id request identity decision now in
      let (log, written) = write to_vec wal event b.log in
      record b { log = log; next_request_id = (b.next_request_id + 1) % u64_mod }

  pub authorize :
      AllowlistBroker → ℕ → McpRequest → TenantIdentity → CapabilityDecision × AllowlistBroker
  unfolding sign emit_audit
  authorize b now request identity = elim (b.tenants identity.tenant) [
    | none ↦ (deny tenant_unknown, emit_audit b request identity audit_deny now)
    | some allowlist ↦ elim (evaluate allowlist request now) [
      | some reason ↦ (deny reason, emit_audit b request identity audit_deny now)
      | none ↦
          let attestation = sign hmac identity.tenant (request_subject request) b.signing_key in
          (allow attestation, emit_audit b request identity audit_allow now)
    ]
  ]

  abbrev pub allowlist_broker : CapabilityBroker
  allowlist_broker = record { State = AllowlistBroker; authorize = authorize }

-- `DryRunBroker`.
pub suppress : McpRequest → TenantIdentity → CapabilityDecision → CapabilityDecision
suppress request identity (allow headers) = allow headers
suppress request identity (deny reason) = allow (record {
  caller = identity.tenant;
  subject = request_subject request;
  decision = codes "allow-dry-run";
  signature = replicate 32 0;
})

module _ (inner : CapabilityBroker) where
  pub dry_authorize :
      inner.State → ℕ → McpRequest → TenantIdentity → CapabilityDecision × inner.State
  dry_authorize s now request identity =
      let (decision, rest) = inner.authorize s now request identity in
      (suppress request identity decision, rest)

  abbrev pub dry_run : CapabilityBroker
  dry_run = record { State = inner.State; authorize = dry_authorize }
