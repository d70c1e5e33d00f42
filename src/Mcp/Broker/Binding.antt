-- ===== src/Mcp/Broker/Binding.antt =====
-- What an attestation vouches for.
use riftgate.Base.{
  ℕ, ◌≡◌, ◌≢◌, ◌⊎◌, inl, inr, refl, ap, sym, ◌∙◌, ◌<◌, ◌^◌, ◌==◌, true, ◌++◌, length, length-append,
  append-injective, Text, codes, text_eq, text_eq_refl, text_eq_sound, Bool-cases, arith,
}
use riftgate.Core.Request.{Bytes}
use riftgate.Replay.Frame.{to_le_bytes, from_le_bytes}
use riftgate.Replay.Frame.Recovery.{from_le_bytes-to_le_bytes, length-to_le_bytes}
use riftgate.Mcp.Capability.{AttestationHeaders}
use riftgate.Mcp.Broker.{message, sign, verify, bar}

to_le_bytes-injective :
    (v w : ℕ) → v < 2 ^ 32 → w < 2 ^ 32 → to_le_bytes 4 v ≡ to_le_bytes 4 w → v ≡ w
to_le_bytes-injective v w hv hw e =
    sym (from_le_bytes-to_le_bytes 4 v hv) ∙ (ap from_le_bytes e ∙ from_le_bytes-to_le_bytes 4 w hw)

module _ (hmac : Bytes → Bytes → Bytes) where
  message-injective :
      (caller other : ℕ) (subject topic decision : Text)
      → caller < 2 ^ 32
      → other < 2 ^ 32
      → message hmac caller subject decision ≡ message hmac other topic decision
      → (caller ≡ other) × (subject ≡ topic)
  unfolding message
  message-injective caller other subject topic decision hc ho e =
      let tail = bar ++ decision in
      let (heads, rest) =
        append-injective (to_le_bytes 4 caller) (bar ++ (subject ++ tail)) (to_le_bytes 4 other)
          (bar ++ (topic ++ tail)) (length-to_le_bytes 4 caller ∙ sym (length-to_le_bytes 4 other))
          e in
      let (bars, texts) = append-injective bar (subject ++ tail) bar (topic ++ tail) refl rest in
      let long = ap length texts in
      let same : length subject ≡ length topic =
        omega (arith, long, length-append subject tail, length-append topic tail) in
      (
        to_le_bytes-injective caller other hc ho heads,
        (append-injective subject tail topic tail same texts).0,
      )

  -- Whatever the code of the messages is: if headers that say "allow" carry the signature of a
  -- tenant and a subject and verify under the same key, then they name that same tenant and that
  -- same subject, or the signed message and the one of the headers are two different messages with
  -- one code. The message alone thus keeps tenant and subject apart. A tenant is a 32-bit number.
  pub verify-bound :
      (key : Bytes) (caller : ℕ) (subject : Text) (headers : AttestationHeaders)
      → caller < 2 ^ 32
      → headers.caller < 2 ^ 32
      → headers.decision ≡ codes "allow"
      → headers.signature ≡ (sign hmac caller subject key).signature
      → verify hmac headers key ≡ true
      → ((headers.caller ≡ caller) × (headers.subject ≡ subject))
        ⊎ ((message hmac headers.caller headers.subject headers.decision
              ≢ message hmac caller subject (codes "allow"))
            × (hmac key (message hmac headers.caller headers.subject headers.decision)
                ≡ hmac key (message hmac caller subject (codes "allow"))))
  unfolding sign verify
  verify-bound key caller subject headers hc hh allowed signed verified =
      let code : hmac key (message hmac headers.caller headers.subject headers.decision)
          ≡ hmac key (message hmac caller subject (codes "allow")) =
        text_eq_sound _ _ verified ∙ signed in
      let apart =
        λ (same : message hmac headers.caller headers.subject headers.decision
            ≡ message hmac caller subject (codes "allow")).
          message-injective headers.caller caller headers.subject subject (codes "allow") hh hc
            (ap (message hmac headers.caller headers.subject) (sym allowed) ∙ same) in
      elim (Bool-cases (text_eq headers.subject subject)) [
        | inr differ ↦ inr (
          λ same. cc (
              sym differ
              ∙ ap (text_eq headers.subject) (sym (apart same).1)
              ∙ text_eq_refl headers.subject),
          code,
        )
        | inl about ↦ elim (Bool-cases (headers.caller == caller)) [
          | inl of ↦ inl (ground (arith, of), text_eq_sound _ _ about)
          | inr other ↦
              inr ((λ same. let (e, t) = apart same in absurd (ground (arith, other, e))), code)
        ]
      ]
