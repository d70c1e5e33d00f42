-- ===== src/Parser/Sse/Chunks.antt =====
-- The framer's events do not depend on how the stream is cut into chunks.
use riftgate.Base.{
  append_assoc, append_nil, ◌≡◌, refl, true, false, none, List, [], ◌∷◌, ◌++◌, Bool-cases, inl, inr,
  ap, sym,
}
use riftgate.Core.Request.{Bytes}
use riftgate.Parser.Sse.{SseFramer, ParseEvent, feed, feed_loop, feed_byte, is_reading}

-- Chunks that are fed one after the other, with no cancellation.
pub feed_all : SseFramer → List Bytes → SseFramer × List ParseEvent
feed_all s [] = (s, [])
feed_all s (chunk ∷ chunks) =
    let (s', events) = feed s none chunk in
    let (s'', rest) = feed_all s' chunks in (s'', events ++ rest)

pub concat : List Bytes → Bytes
concat [] = []
concat (chunk ∷ chunks) = chunk ++ concat chunks

abbrev then_feed : SseFramer × List ParseEvent → Bytes → SseFramer × List ParseEvent
then_feed (s, events) bytes = ((feed s none bytes).0, events ++ (feed s none bytes).1)

feed-stopped :
    (s : SseFramer) (bytes : Bytes) → is_reading s.phase ≡ false → feed s none bytes ≡ (s, [])
unfolding feed
feed-stopped s bytes e = rw e

feed-reading :
    (s : SseFramer) (bytes : Bytes)
    → is_reading s.phase ≡ true
    → feed s none bytes ≡ feed_loop bytes s
unfolding feed
feed-reading s bytes e = rw e

feed-empty : (s : SseFramer) → feed s none [] ≡ (s, [])
unfolding feed feed_loop
feed-empty s = elim (Bool-cases (is_reading s.phase)) [ inl e ↦ rw e | inr e ↦ rw e ]

feed_loop-append :
    (a b : Bytes) (s : SseFramer)
    → is_reading s.phase ≡ true
    → feed_loop (a ++ b) s ≡ then_feed (feed_loop a s) b
unfolding feed_loop
feed_loop-append [] b s e = sym (feed-reading s b e)
feed_loop-append (x ∷ a) b s e = elim (Bool-cases (is_reading (feed_byte s x).0.phase)) [
  | inl on ↦
      rw (on, feed_loop-append a b (feed_byte s x).0 on)
        (ap (λ events. ((feed (feed_loop a (feed_byte s x).0).0 none b).0, events))
          (sym (
            append_assoc (feed_byte s x).1 (feed_loop a (feed_byte s x).0).1
              (feed (feed_loop a (feed_byte s x).0).0 none b).1)))
  | inr off ↦ rw (off, feed-stopped (feed_byte s x).0 b off, append_nil (feed_byte s x).1) refl
]

feed-append : (a b : Bytes) (s : SseFramer) → feed s none (a ++ b) ≡ then_feed (feed s none a) b
feed-append a b s = elim (Bool-cases (is_reading s.phase)) [
  | inl on ↦ rw (feed-reading s (a ++ b) on, feed-reading s a on) (feed_loop-append a b s on)
  | inr off ↦ rw (feed-stopped s (a ++ b) off, feed-stopped s a off, feed-stopped s b off) refl
]

-- However a stream is cut into chunks, feeding them one after the other gives the events, and
-- leaves the framer, of feeding it whole; from any state, and also past the end of the stream.
pub feed_all-concat :
    (chunks : List Bytes) (s : SseFramer) → feed_all s chunks ≡ feed s none (concat chunks)
unfolding feed_all concat
feed_all-concat [] s = sym (feed-empty s)
feed_all-concat (chunk ∷ chunks) s =
    rw (feed-append chunk (concat chunks) s, feed_all-concat chunks (feed s none chunk).0) refl
