-- ===== src/Replay/Frame/Recovery.antt =====
-- What the parser recovers from a log whose last entry may be cut short.
use native.Mathlib.Numerals.{unary_clauses}
use riftgate.Base.{
  append_assoc, append_nil, sym, ℕ, zero, suc, ◌+◌, ◌*◌, ◌/◌, ◌^◌, ◌≤◌, ◌<◌, ◌≡◌, refl, false, List,
  [], ◌∷◌, ◌++◌, map, ltb, length, take, drop, All, arith, length-append, take-append, drop-append,
  ltb-eq-false, ap, ◌∙◌, lt→ltb, ltb→lt, le_of_ltb, Bool-cases, inl, inr, ◌-◌, min,
}
use riftgate.Core.Request.{Bytes}
use riftgate.Replay.Frame.{
  ParsedFrame, parsed, payload_overflow, encode, read_header, parse_loop, try_parse_frames,
  to_le_bytes, from_le_bytes, max_payload_bytes,
}

pub from_le_bytes-to_le_bytes : (n v : ℕ) → v < 256 ^ n → from_le_bytes (to_le_bytes n v) ≡ v
unfolding from_le_bytes to_le_bytes
from_le_bytes-to_le_bytes zero v h = omega (arith, h)
from_le_bytes-to_le_bytes (suc n) v h =
    let same : 256 ^ suc n ≡ 256 ^ n * 256 = simp unary_clauses refl in
    let high = from_le_bytes-to_le_bytes n (v / 256) (let k = rw same at h in omega (arith, k)) in
    omega (arith, high)

pub length-to_le_bytes : (n v : ℕ) → length (to_le_bytes n v) ≡ n
unfolding to_le_bytes
length-to_le_bytes zero v = refl
length-to_le_bytes (suc n) v = ap suc (length-to_le_bytes n (v / 256))

-- The numbers of an entry fit into their fields, and its payload is one that the parser accepts.
pub record IsEntry (f : ParsedFrame) : Type 0 where
  pub id_fits : f.entry_id < 256 ^ 8
  pub time_fits : f.timestamp_nanos < 256 ^ 8
  pub payload_fits : length f.payload ≤ max_payload_bytes

abbrev header_of : ParsedFrame → Bytes
header_of f =
    to_le_bytes 4 (length f.payload)
    ++ f.durability_tag ∷ f.entry_kind ∷ to_le_bytes 8 f.timestamp_nanos
    ++ to_le_bytes 8 f.entry_id

length-header_of : (f : ParsedFrame) → length (header_of f) ≡ 22
unfolding to_le_bytes
length-header_of f = refl

read_header-header_of : (f : ParsedFrame) → IsEntry f → read_header (header_of f) f.payload ≡ f
unfolding to_le_bytes read_header
read_header-header_of f v =
    let id : from_le_bytes (take 8 (drop 14 (header_of f))) ≡ f.entry_id =
      from_le_bytes-to_le_bytes 8 f.entry_id v.id_fits in
    let time : from_le_bytes (take 8 (drop 6 (header_of f))) ≡ f.timestamp_nanos =
      from_le_bytes-to_le_bytes 8 f.timestamp_nanos v.time_fits in
    rw (id, time) refl

read_len :
    (f : ParsedFrame)
    → length f.payload < 256 ^ 4
    → from_le_bytes (take 4 (header_of f)) ≡ length f.payload
unfolding to_le_bytes
read_len f fits = from_le_bytes-to_le_bytes 4 (length f.payload) fits

payload_len-header_of :
    (f : ParsedFrame) → IsEntry f → from_le_bytes (take 4 (header_of f)) ≡ length f.payload
payload_len-header_of f v = read_len f (omega (arith, v.payload_fits))

take-header : (f : ParsedFrame) (rest : Bytes) → take 22 (header_of f ++ rest) ≡ header_of f
unfolding to_le_bytes
take-header f rest = refl

drop-header : (f : ParsedFrame) (rest : Bytes) → drop 22 (header_of f ++ rest) ≡ rest
unfolding to_le_bytes
drop-header f rest = refl

parse_loop-frame :
    (fuel : ℕ) (f : ParsedFrame) (rest : Bytes)
    → IsEntry f
    → parse_loop (suc fuel) (header_of f ++ (f.payload ++ rest)) ≡ parsed f ∷ parse_loop fuel rest
unfolding parse_loop
parse_loop-frame fuel f rest v =
    let long : ltb (length (header_of f ++ (f.payload ++ rest))) 22 ≡ false =
      ltb-eq-false _ _
        (omega (arith, length-append (header_of f) (f.payload ++ rest), length-header_of f)) in
    let small : ltb max_payload_bytes (length f.payload) ≡ false =
      ltb-eq-false _ _ v.payload_fits in
    let whole : ltb (length (f.payload ++ rest)) (length f.payload) ≡ false =
      ltb-eq-false _ _ (omega (arith, length-append f.payload rest)) in
    rw
      (
        take-header f (f.payload ++ rest),
        drop-header f (f.payload ++ rest),
        payload_len-header_of f v,
        take-append f.payload rest,
        drop-append f.payload rest,
        read_header-header_of f v,
        long,
        small,
        whole,
      )
      refl

-- A log of entries.
unfoldable pub encode_all : List ParsedFrame → Bytes
encode_all [] = []
encode_all (f ∷ fs) = encode f ++ encode_all fs

encode-append :
    (f : ParsedFrame) (rest : Bytes) → encode f ++ rest ≡ header_of f ++ (f.payload ++ rest)
unfolding encode
encode-append f rest = append_assoc (header_of f) f.payload rest

length-take : (n : ℕ) (xs : Bytes) → length (take n xs) ≡ min n (length xs)
length-take zero xs = omega arith
length-take (suc n) [] = omega arith
length-take (suc n) (x ∷ xs) = omega (arith, length-take n xs)

take-past : (a b : Bytes) (k : ℕ) → take (length a + k) (a ++ b) ≡ a ++ take k b
take-past [] b k = let same : 0 + k ≡ k = omega arith in rw same refl
take-past (x ∷ a) b k =
    let same : suc (length a) + k ≡ suc (length a + k) = omega arith in
    rw same (ap (λ t. x ∷ t) (take-past a b k))

parse_loop-short : (fuel : ℕ) (bytes : Bytes) → length bytes < 22 → parse_loop fuel bytes ≡ []
unfolding parse_loop
parse_loop-short zero bytes h = refl
parse_loop-short (suc fuel) bytes h = rw (lt→ltb (length bytes) 22 h) refl

parse_loop-partial :
    (fuel : ℕ) (f : ParsedFrame) (part : Bytes)
    → IsEntry f
    → length part < length f.payload
    → parse_loop fuel (header_of f ++ part) ≡ []
unfolding parse_loop
parse_loop-partial zero f part v h = refl
parse_loop-partial (suc fuel) f part v h =
    let long : ltb (length (header_of f ++ part)) 22 ≡ false =
      ltb-eq-false _ _ (omega (arith, length-append (header_of f) part, length-header_of f)) in
    let small : ltb max_payload_bytes (length f.payload) ≡ false =
      ltb-eq-false _ _ v.payload_fits in
    rw
      (
        take-header f part,
        drop-header f part,
        payload_len-header_of f v,
        long,
        small,
        lt→ltb (length part) (length f.payload) h,
      )
      refl

parse_loop-torn :
    (fuel : ℕ) (f : ParsedFrame) (n : ℕ)
    → IsEntry f
    → n < length (encode f)
    → parse_loop fuel (take n (encode f)) ≡ []
unfolding encode
parse_loop-torn fuel f n v h = elim (Bool-cases (ltb n 22)) [
  | inl short ↦
      parse_loop-short fuel (take n (encode f))
        (omega (arith, ltb→lt _ _ short, length-take n (encode f)))
  | inr long ↦
      let k = n - 22 in
      let size = length-append (header_of f) f.payload in
      let twenty_two = length-header_of f in
      let same : n ≡ length (header_of f) + k = omega (arith, le_of_ltb _ _ long) in
      let cut = take-past (header_of f) f.payload k in
      rw same (
        rw cut (
          parse_loop-partial fuel f (take k f.payload) v
            (omega (arith, length-take k f.payload, h, size, twenty_two, le_of_ltb _ _ long))))
]

parse_loop-encode_all :
    (fs : List ParsedFrame) (torn : Bytes) (fuel : ℕ)
    → All IsEntry fs
    → ((k : ℕ) → parse_loop k torn ≡ [])
    → length (encode_all fs ++ torn) ≤ fuel
    → parse_loop fuel (encode_all fs ++ torn) ≡ map parsed fs
unfolding encode_all
parse_loop-encode_all [] torn fuel v stop h = stop fuel
parse_loop-encode_all (f ∷ fs) torn zero (v, vs) stop h = absurd (
    omega (
      arith,
      h,
      ap length (append_assoc (encode f) (encode_all fs) torn),
      ap length (encode-append f (encode_all fs ++ torn)),
      length-append (header_of f) (f.payload ++ (encode_all fs ++ torn)),
      length-header_of f,
    ))
parse_loop-encode_all (f ∷ fs) torn (suc fuel) (v, vs) stop h =
    let same =
      append_assoc (encode f) (encode_all fs) torn ∙ encode-append f (encode_all fs ++ torn) in
    rw same (
      parse_loop-frame fuel f (encode_all fs ++ torn) v
      ∙ ap (λ t. parsed f ∷ t)
          (parse_loop-encode_all fs torn fuel vs stop (
            omega (
              arith,
              h,
              ap length same,
              length-append (header_of f) (f.payload ++ (encode_all fs ++ torn)),
              length-header_of f,
              length-append f.payload (encode_all fs ++ torn),
            ))))

parse_loop-overflow :
    (f : ParsedFrame) (rest : Bytes) (fuel : ℕ)
    → max_payload_bytes < length f.payload
    → length f.payload < 256 ^ 4
    → 22 ≤ fuel
    → parse_loop fuel (header_of f ++ rest) ≡ payload_overflow (length f.payload) ∷ []
unfolding parse_loop
parse_loop-overflow f rest zero big fits h = absurd (omega (arith, h))
parse_loop-overflow f rest (suc fuel) big fits h =
    let len : from_le_bytes (take 4 (header_of f)) ≡ length f.payload = read_len f fits in
    let long : ltb (length (header_of f ++ rest)) 22 ≡ false =
      ltb-eq-false _ _ (omega (arith, length-append (header_of f) rest, length-header_of f)) in
    rw
      (
        take-header f rest,
        drop-header f rest,
        len,
        long,
        lt→ltb max_payload_bytes (length f.payload) big,
      )
      refl

-- From a log of entries, with a last entry of which only some first bytes were written, the parser
-- recovers the entries that are whole, in order and field by field, and reports no error; the
-- numbers must fit their fields and the payloads be of 16 MiB at most.
pub try_parse_frames-encode_all :
    (fs : List ParsedFrame) (last : ParsedFrame) (n : ℕ)
    → All IsEntry fs
    → IsEntry last
    → n < length (encode last)
    → try_parse_frames (encode_all fs ++ take n (encode last)) ≡ map parsed fs
unfolding try_parse_frames
try_parse_frames-encode_all fs last n vs v h =
    parse_loop-encode_all fs (take n (encode last)) (length (encode_all fs ++ take n (encode last)))
      vs (λ k. parse_loop-torn k last n v h) (omega arith)

-- The same with no part of a further entry.
pub try_parse_frames-whole :
    (fs : List ParsedFrame) → All IsEntry fs → try_parse_frames (encode_all fs) ≡ map parsed fs
unfolding try_parse_frames parse_loop
try_parse_frames-whole fs vs =
    let same : encode_all fs ≡ encode_all fs ++ [] = sym (append_nil (encode_all fs)) in
    rw same (
      parse_loop-encode_all fs [] (length (encode_all fs ++ [])) vs
        (λ k. parse_loop-short k [] (omega arith)) (omega arith))

-- An entry whose payload is above 16 MiB, which `append` accepts below 4 GiB, hides everything that
-- stands after it in the log: the parser reports its length and stops.
pub try_parse_frames-overflow :
    (f : ParsedFrame) (rest : Bytes)
    → max_payload_bytes < length f.payload
    → length f.payload < 256 ^ 4
    → try_parse_frames (encode f ++ rest) ≡ payload_overflow (length f.payload) ∷ []
unfolding try_parse_frames
try_parse_frames-overflow f rest big fits = rw (encode-append f rest) (
    parse_loop-overflow f (f.payload ++ rest) (length (header_of f ++ (f.payload ++ rest))) big fits
      (omega (arith, length-append (header_of f) (f.payload ++ rest), length-header_of f)))
