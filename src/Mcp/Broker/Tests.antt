-- ===== src/Mcp/Broker/Tests.antt =====
-- A broker with one tenant; the code of a message is the message.
use riftgate.Base.{
  ℕ, ◌<◌, ◌^◌, ◌≡◌, ◌≢◌, ◌⊎◌, refl, true, Option, none, some, List, [], ◌∷◌, ◌==◌, if◌then◌else◌,
  codes, arith, replicate, Map,
}
use riftgate.Core.Request.{Bytes}
use riftgate.Mcp.Capability.{McpRequest, tool_call, TenantIdentity, AttestationHeaders}
use riftgate.Mcp.Allowlist.{TenantAllowlist}
use riftgate.Mcp.Audit.{AuditRecord, Wal}
use riftgate.Mcp.Broker.{message, sign, verify}
use riftgate.Mcp.Broker.Trail.{Call, verify-sign}
use riftgate.Mcp.Broker.Binding.{verify-bound}

abbrev plain : Bytes → Bytes → Bytes
plain key message = message

abbrev tenant : TenantAllowlist
tenant = record {
  allowed_tools = codes "search" ∷ [];
  denied_tools = [];
  allowed_resource_prefixes = [];
  time_bounded_grants = [];
}

abbrev configs : Map ℕ TenantAllowlist
configs = λ t. if t == 7 then some tenant else none

abbrev key : Bytes
key = replicate 32 1

abbrev request : McpRequest
request = tool_call (codes "search") (replicate 32 2)

abbrev identity : TenantIdentity
identity = record { tenant = 7; principal = codes "alice" }

abbrev stranger : TenantIdentity
stranger = record { tenant = 8; principal = codes "bob" }

-- A log that has room for one entry.
abbrev keep_one : List Bytes → Bytes → List Bytes × Option ℕ
keep_one [] bytes = (bytes ∷ [], some 1)
keep_one (b ∷ bs) bytes = (b ∷ bs, none)

abbrev log : Wal
log = record { State = List Bytes; append = λ entries bytes durability. keep_one entries bytes }

abbrev to_vec : AuditRecord → Option Bytes
to_vec r = some r.correlation_id

abbrev calls : List Call
calls = (9, request, identity) ∷ (10, request, stranger) ∷ []

abbrev headers : AttestationHeaders
headers = sign plain 7 (codes "search") key

headers_caller : headers.caller < 2 ^ 32
unfolding sign
headers_caller = omega arith

headers_allowed : headers.decision ≡ codes "allow"
unfolding sign
headers_allowed = refl

headers_verified : verify plain headers key ≡ true
headers_verified = verify-sign plain 7 (codes "search") key

verify-bound_example :
    ((headers.caller ≡ 7) × (headers.subject ≡ codes "search"))
    ⊎ ((message plain headers.caller headers.subject headers.decision
          ≢ message plain 7 (codes "search") (codes "allow"))
        × (plain key (message plain headers.caller headers.subject headers.decision)
            ≡ plain key (message plain 7 (codes "search") (codes "allow"))))
verify-bound_example =
    verify-bound plain key 7 (codes "search") headers (omega arith) headers_caller headers_allowed
      refl headers_verified
