-- ===== src/Parser/Http1/Tests.antt =====
-- A request with a body of three bytes; the head is one byte, which httparse takes for all of it.
use riftgate.Base.{◌≡◌, refl, false, some, List, [], ◌∷◌, ◌++◌, replicate, drop, codes, arith}
use riftgate.Core.Request.{Bytes, new_headers}
use riftgate.Parser.Http1.{
  HttpStatus, complete, partial, ParseEvent, headers_complete, new, owned_headers,
  parse_content_length, is_chunked,
}
use riftgate.Parser.Http1.Content.{feed_all, Carries, join, feed_all-content}

abbrev fields : List (Bytes × Bytes)
fields = (codes "Content-Length", codes " 3") ∷ []

abbrev parser : Bytes → HttpStatus
parser [] = partial
parser (b ∷ bs) = complete 1 fields

abbrev first : Bytes
first = b'h' ∷ 7 ∷ []

plain : is_chunked (owned_headers new_headers fields) ≡ false
unfolding is_chunked owned_headers new_headers
plain = refl

given : parse_content_length (owned_headers new_headers fields) ≡ some 3
unfolding parse_content_length owned_headers new_headers
given = refl

-- A no-break space before the number and an ideographic space behind it are trimmed.
given_wide :
    parse_content_length (
      owned_headers new_headers
        ((codes "content-length", 0xC2 ∷ 0xA0 ∷ b'3' ∷ 0xE3 ∷ 0x80 ∷ 0x80 ∷ []) ∷ []))
    ≡ some 3
unfolding parse_content_length owned_headers new_headers
given_wide = refl

feed_all-content_example :
    (es : List ParseEvent) × (feed_all parser new (first ∷ (8 ∷ []) ∷ (9 ∷ 10 ∷ []) ∷ [])
      ≡ headers_complete (owned_headers new_headers fields) ∷ es)
    × Carries 3 (drop 1 first ++ join ((8 ∷ []) ∷ (9 ∷ 10 ∷ []) ∷ [])) es
feed_all-content_example =
    feed_all-content parser first 1 3 fields ((8 ∷ []) ∷ (9 ∷ 10 ∷ []) ∷ []) refl (omega arith)
      (omega arith) plain given (omega arith)

abbrev body : Bytes
body = replicate 8192 0
