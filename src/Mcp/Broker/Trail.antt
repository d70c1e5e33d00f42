-- ===== src/Mcp/Broker/Trail.antt =====
-- The decisions, their signatures, and the events that are written for them.
use riftgate.Base.{
  ℕ, ◌+◌, ◌%◌, ◌≡◌, refl, Bool, true, Option, none, some, List, [], ◌∷◌, ◌++◌, Text, codes,
  text_eq_refl, append_assoc, ap, Map,
}
use riftgate.Core.Request.{Bytes}
use riftgate.Replay.Frame.{to_le_bytes}
use riftgate.Mcp.Capability.{
  McpRequest, TenantIdentity, tenant_unknown, CapabilityDecision, allow, deny, AuditDecision,
  audit_allow, audit_deny, request_subject,
}
use riftgate.Mcp.Allowlist.{TenantAllowlist}
use riftgate.Mcp.Allowlist.Refusal.{refusal}
use riftgate.Mcp.Audit.{AuditRecord, Wal, write}
use riftgate.Mcp.Broker.{
  CapabilityBroker, AllowlistBroker, message, sign, verify, authorize, suppress, dry_authorize,
  audit_event, u64_mod,
}

abbrev pub is_allow : CapabilityDecision → AuditDecision
is_allow (allow headers) = audit_allow
is_allow (deny reason) = audit_deny

-- What a verifier makes of a decision: an allowed one must carry a signature that holds.
abbrev pub is_verified : (Bytes → Bytes → Bytes) → Bytes → CapabilityDecision → Bool
is_verified hmac key (allow headers) = verify hmac headers key
is_verified hmac key (deny reason) = true

suppress-is_allow :
    (request : McpRequest) (identity : TenantIdentity) (decision : CapabilityDecision)
    → is_allow (suppress request identity decision) ≡ audit_allow
unfolding suppress
suppress-is_allow request identity (allow headers) = refl
suppress-is_allow request identity (deny reason) = refl

-- In dry-run mode every request is allowed, while the inner broker's state, its log included, is
-- that of the inner broker's own decision.
pub dry_authorize-trail :
    (inner : CapabilityBroker) (s : inner.State) (now : ℕ) (request : McpRequest)
    (identity : TenantIdentity)
    → (is_allow (dry_authorize inner s now request identity).0 ≡ audit_allow)
      × ((dry_authorize inner s now request identity).1
          ≡ (inner.authorize s now request identity).1)
unfolding dry_authorize suppress
dry_authorize-trail inner s now request identity =
    (suppress-is_allow request identity (inner.authorize s now request identity).0, refl)

module _ (hmac : Bytes → Bytes → Bytes) where
  pub verify-sign :
      (caller : ℕ) (subject : Text) (key : Bytes)
      → verify hmac (sign hmac caller subject key) key ≡ true
  unfolding sign verify
  verify-sign caller subject key =
      text_eq_refl (hmac key (message hmac caller subject (codes "allow")))

  -- The signature does not tell where the subject ends: one for a subject `a|b` also verifies for
  -- the subject `a` with the decision `b|allow`, under every key and for every code.
  pub verify-ambiguous :
      (caller : ℕ) (a b : Text) (key : Bytes)
      → verify hmac
          (record {
            caller = caller;
            subject = a;
            decision = b ++ codes "|allow";
            signature = (sign hmac caller (a ++ (codes "|" ++ b)) key).signature;
          })
          key
        ≡ true
  unfolding verify sign message
  verify-ambiguous caller a b key =
      let same : message hmac caller (a ++ (codes "|" ++ b)) (codes "allow")
          ≡ message hmac caller a (b ++ codes "|allow") =
        ap (λ t. to_le_bytes 4 caller ++ (codes "|" ++ t))
          (append_assoc a (codes "|" ++ b) (codes "|allow")) in
      rw same (text_eq_refl (hmac key (message hmac caller a (b ++ codes "|allow"))))

-- A request with the time at which it comes.
abbrev pub Call : Type 0
Call = ℕ × McpRequest × TenantIdentity

module _ (hmac : Bytes → Bytes → Bytes) (configs : Map ℕ TenantAllowlist) (key : Bytes) where
  -- What the configuration says of one call, with no broker.
  abbrev pub verdict : Call → CapabilityDecision
  verdict (now, request, identity) = elim (configs identity.tenant) [
    | none ↦ deny tenant_unknown
    | some cfg ↦ elim (refusal cfg request now) [
      | some reason ↦ deny reason
      | none ↦ allow (sign hmac identity.tenant (request_subject request) key)
    ]
  ]

module _ (hmac : Bytes → Bytes → Bytes) (to_vec : AuditRecord → Option Bytes) (wal : Wal)
    (configs : Map ℕ TenantAllowlist) (key : Bytes) where
  -- The decisions of calls in a row, and the broker after them.
  pub authorize_all :
      AllowlistBroker hmac to_vec wal
      → List Call
      → List CapabilityDecision × AllowlistBroker hmac to_vec wal
  authorize_all b [] = ([], b)
  authorize_all b ((now, request, identity) ∷ calls) =
      let (d, b') = authorize hmac to_vec wal b now request identity in
      let (ds, last) = authorize_all b' calls in (d ∷ ds, last)

  -- The log after one event for each call is given to it, in their order and with numbers in a row.
  pub logged : ℕ → List Call → wal.State → wal.State
  logged id [] log = log
  logged id ((now, request, identity) ∷ calls) log =
      let event =
        audit_event id request identity
          (is_allow (verdict hmac configs key (now, request, identity))) now in
      logged ((id + 1) % u64_mod) calls (write to_vec wal event log).0
