-- ===== src/Mcp/Audit.antt =====
-- crates/riftgate-mcp/src/audit.rs: the record of a decision and its writing to the log, with the
-- trait of crates/riftgate-core/src/wal.rs as far as it is used.
use riftgate.Base.{
  ℕ, zero, suc, ◌/◌, ◌%◌, Bool, true, false, Option, none, some, [], ◌∷◌, ◌++◌, ltb, if◌then◌else◌,
  Text, codes,
}
use riftgate.Core.Request.{Bytes}
use riftgate.Replay.Wal.{Durability, fsync}
use riftgate.Mcp.Capability.{McpAuditEvent, AuditDecision, audit_allow, audit_deny}
use riftgate.Mcp.Hex.{hex_digit, hex_encode}

-- A log that entries are appended to: the new state, and the entry's id or nothing for an error.
pub record Wal : Type 1 where
  pub State : Type 0
  pub append : State → Bytes → Durability → State × Option ℕ

-- `{:x}` of a number with at most `fuel` digits; a number of 64 bits has at most 16.
pub lower_hex : (fuel : ℕ) → ℕ → Text
lower_hex zero n = []
lower_hex (suc fuel) n =
    let high = lower_hex fuel (n / 16) in
    if ltb n 16 then hex_digit n ∷ [] else high ++ hex_digit (n % 16) ∷ []

-- `Display` of a request's id.
pub request_id_text : ℕ → Text
unfolding lower_hex
request_id_text id = codes "req-" ++ lower_hex 16 id

pub record AuditRecord : Type 0 where
  pub correlation_id : Text
  pub tenant : ℕ
  pub subject : Text
  pub argument_hash : Text
  pub decision : Text
  pub timestamp_unix_secs : ℕ

abbrev decision_text : AuditDecision → Text
decision_text audit_allow = codes "allow"
decision_text audit_deny = codes "deny"

-- A time is the number of its nanoseconds since the epoch, and none is before it.
pub audit_record : McpAuditEvent → AuditRecord
unfolding request_id_text
audit_record event = record {
  correlation_id = request_id_text event.correlation_id;
  tenant = event.tenant;
  subject = event.subject;
  argument_hash = hex_encode event.argument_hash;
  decision = decision_text event.decision;
  timestamp_unix_secs = event.timestamp / 1000000000;
}

-- `serde_json::to_vec` is a parameter: the text of a record, or nothing for an error.
module _ (to_vec : AuditRecord → Option Bytes) (wal : Wal) where
  -- The answer says whether the entry was written.
  pub write : McpAuditEvent → wal.State → wal.State × Bool
  unfolding audit_record
  write event s = elim (to_vec (audit_record event)) [
    | none ↦ (s, false)
    | some bytes ↦
        let (s', appended) = wal.append s (bytes ++ b'\n' ∷ []) fsync in
        (s', elim appended [ none ↦ false | some id ↦ true ])
  ]
