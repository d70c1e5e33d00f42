-- ===== src/Replay/Wal/Crash.antt =====
-- What a crash leaves of a segment, and what the parser recovers from it.
use riftgate.Base.{
  take-append_long, take-append_short, ℕ, zero, suc, ◌-◌, ◌≡◌, refl, List, [], ◌∷◌, ◌++◌, map, ltb,
  length, take, arith, All, All-append, Bool-cases, inl, inr, append_assoc, append_nil, sym, ◌∙◌,
  ap, le_of_ltb, ltb→lt,
}
use riftgate.Core.Request.{Bytes}
use riftgate.Replay.Frame.{ParsedFrame, parsed, encode, try_parse_frames}
use riftgate.Replay.Frame.Recovery.{
  IsEntry, encode_all, try_parse_frames-encode_all, try_parse_frames-whole,
}
use riftgate.Replay.Wal.{FileWalConfig, Segment}
use riftgate.Replay.Wal.Serial.{System, Reach, Reach-IsSerial, Above}

-- The bytes of a segment after a crash: all that was synced, and the first `n` bytes of the rest.
pub surviving : Segment → ℕ → Bytes
surviving segment n = encode_all segment.durable ++ take n (encode_all segment.buffered)

encode_all-append : (a b : List ParsedFrame) → encode_all (a ++ b) ≡ encode_all a ++ encode_all b
unfolding encode_all
encode_all-append [] b = refl
encode_all-append (f ∷ a) b =
    rw (encode_all-append a b) (sym (append_assoc (encode f) (encode_all a) (encode_all b)))

take-empty : (n : ℕ) → take {A = ℕ} n [] ≡ []
take-empty zero = refl
take-empty (suc n) = refl

move-frame :
    (whole : List ParsedFrame) (f : ParsedFrame) (bytes : Bytes)
    → encode_all whole ++ (encode f ++ bytes) ≡ encode_all (whole ++ f ∷ []) ++ bytes
unfolding encode_all
move-frame whole f bytes =
    sym (append_assoc (encode_all whole) (encode f) bytes)
    ∙ ap (λ t. (encode_all whole ++ t) ++ bytes) (sym (append_nil (encode f)))
    ∙ ap (λ t. t ++ bytes) (sym (encode_all-append whole (f ∷ [])))

-- The first `n` bytes of some frames behind others: whole frames, and a part of one more.
recover-prefix :
    (whole rest : List ParsedFrame) (n : ℕ)
    → All IsEntry whole
    → All IsEntry rest
    → (k : ℕ) × (try_parse_frames (encode_all whole ++ take n (encode_all rest))
        ≡ map parsed (whole ++ take k rest))
unfolding encode_all
recover-prefix whole [] n v w = (
  0,
  ap (λ bytes. try_parse_frames (encode_all whole ++ bytes)) (take-empty n)
      ∙ ap try_parse_frames (append_nil (encode_all whole))
      ∙ try_parse_frames-whole whole v
      ∙ ap (map parsed) (sym (append_nil whole)),
)
recover-prefix whole (f ∷ rest) n v (e, w) = elim (Bool-cases (ltb n (length (encode f)))) [
  | inl short ↦ (
    0,
    ap (λ bytes. try_parse_frames (encode_all whole ++ bytes))
          (take-append_short (encode f) (encode_all rest) n
            (let lt = ltb→lt _ _ short in omega (arith, lt)))
        ∙ try_parse_frames-encode_all whole f n v e (ltb→lt _ _ short)
        ∙ ap (map parsed) (sym (append_nil whole)),
  )
  | inr long ↦
      let (k, found) =
        recover-prefix (whole ++ f ∷ []) rest (n - length (encode f))
          (All-append IsEntry whole (f ∷ []) v (e, tt)) w in
      (
        suc k,
        ap (λ bytes. try_parse_frames (encode_all whole ++ bytes))
              (take-append_long (encode f) (encode_all rest) n (le_of_ltb _ _ long))
            ∙ ap try_parse_frames
                (move-frame whole f (take (n - length (encode f)) (encode_all rest)))
            ∙ found
            ∙ ap (map parsed) (append_assoc whole (f ∷ []) (take k rest)),
      )
]

All-left : (a b : List ParsedFrame) → All IsEntry (a ++ b) → All IsEntry a × All IsEntry b
All-left [] b v = (tt, v)
All-left (f ∷ a) b (e, v) = let (x, y) = All-left a b v in ((e, x), y)

-- For a shard of a log that was opened without a segment, whose entries were written in the order of
-- their ids, each with a payload of at most 16 MiB, without a rollover and without a failed write, at
-- any moment, with any failed syncs and with ids drawn for no entry of the shard in between: if a crash leaves
-- of its segment what was synced and any number of the bytes after that, the parser recovers all the
-- synced entries and some first ones of the rest, whole and in order, with no error; and no entry up
-- to `last_durable` is among the rest.
pub surviving-recovered :
    (cfg : FileWalConfig) (y : System) (n : ℕ)
    → Reach cfg y
    → (k : ℕ) × (try_parse_frames (surviving y.shard.current n)
        ≡ map parsed (y.shard.current.durable ++ take k y.shard.current.buffered))
      × Above y.shard.last_durable y.shard.current.buffered
unfolding surviving
surviving-recovered cfg y n reach =
    let v = Reach-IsSerial cfg reach in
    let (synced, rest) = All-left y.shard.current.durable y.shard.current.buffered v.entries in
    let (k, same) = recover-prefix y.shard.current.durable y.shard.current.buffered n synced rest in
    (k, same, v.unsynced)
