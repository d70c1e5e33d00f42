-- ===== src/Parser/Sse/Tests.antt =====
-- Runs of the framer.
use riftgate.Base.{
  ◌+◌, ◌%◌, ◌≤◌, ◌≡◌, refl, Option, none, some, List, [], ◌∷◌, ◌++◌, map, if◌then◌else◌, length,
  arith,
}
use riftgate.Core.Cancel.{CancelCause, draining}
use riftgate.Core.Request.{Bytes}
use riftgate.Parser.Sse.{
  sse_token, sse_done, new, feed, last, bytes_eq, is_reading, max_line, u64_mod,
}
use riftgate.Parser.Sse.Chunks.{feed_all, concat, feed_all-concat}
use riftgate.Parser.Sse.Render.{IsPayload, render_all, feed-render_all}
use riftgate.Parser.Sse.Tally.{feed_run, token_bytes, endings, one_if, feed_run-tally}

-- `data: hi`, a newline, and a blank line, in two pieces.
abbrev two_chunks : List Bytes
two_chunks = (b'd' ∷ b'a' ∷ b't' ∷ b'a' ∷ []) ∷ (b':' ∷ b' ' ∷ b'h' ∷ b'i' ∷ 10 ∷ 13 ∷ 10 ∷ []) ∷ []

feed-two_lines :
    (feed new none (b'd' ∷ b'a' ∷ b't' ∷ b'a' ∷ b':' ∷ b' ' ∷ b'h' ∷ b'i' ∷ 10 ∷ 13 ∷ 10 ∷ [])).1
    ≡ sse_token (b'h' ∷ b'i' ∷ []) ∷ []
unfolding feed last bytes_eq new
feed-two_lines = refl

feed_all-concat_example : feed_all new two_chunks ≡ feed new none (concat two_chunks)
feed_all-concat_example = feed_all-concat two_chunks new

hi-IsPayload : IsPayload (b'h' ∷ b'i' ∷ [])
unfolding last bytes_eq
hi-IsPayload = record {
  some_bytes = refl;
  one_line = refl;
  no_cr = refl;
  not_done = refl;
  fits = omega arith;
}

feed-render_all_example :
    (feed new none (render_all ((b'h' ∷ b'i' ∷ []) ∷ []))).1
    ≡ map sse_token ((b'h' ∷ b'i' ∷ []) ∷ []) ++ sse_done ∷ []
feed-render_all_example = feed-render_all ((b'h' ∷ b'i' ∷ []) ∷ []) (hi-IsPayload, tt)

abbrev cut_short : List (Option CancelCause × Bytes)
cut_short = (none, concat two_chunks) ∷ (some draining, b'd' ∷ []) ∷ []

feed_run-tally_example :
    ((feed_run new cut_short).0.bytes_seen ≡ token_bytes (feed_run new cut_short).1 % u64_mod)
    × (endings (feed_run new cut_short).1 + one_if (is_reading (feed_run new cut_short).0.phase)
        ≡ 1)
    × (length (feed_run new cut_short).0.line_buf
        ≤ (if is_reading (feed_run new cut_short).0.phase then max_line else max_line + 1))
feed_run-tally_example = feed_run-tally cut_short
