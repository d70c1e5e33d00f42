-- ===== src/Replay/Wal/Races.antt =====
-- Two appenders of one shard that take the lock in the other order than their ids.
use riftgate.Base.{
  ◌+◌, ◌≤◌, ◌<◌, ◌≡◌, refl, Bool, true, false, none, some, [], ◌∷◌, ◌++◌, arith, append_assoc,
}
use riftgate.Replay.Frame.{ParsedFrame}
use riftgate.Replay.Wal.{
  FileWalConfig, ShardState, fsync, append, write_frame, frame_len, is_pending, pick_target,
  do_flush, publish, returned, waiting, wait_durable,
}
use riftgate.Replay.Wal.Serial.{append_fits}

-- What two entries that fit into the segment leave of the shard, with a sync after the first.
append-fits_synced :
    (cfg : FileWalConfig) (f g : ParsedFrame) (s : ShardState)
    → s.segment_bytes + (frame_len g + frame_len f) ≤ cfg.segment_size_max
    → append cfg f (publish true g.entry_id (do_flush (append cfg g s)))
      ≡ write_frame f (publish true g.entry_id (do_flush (write_frame g s)))
unfolding write_frame publish do_flush
append-fits_synced cfg f g s fits =
    rw (append_fits cfg g s (omega (arith, fits))) (
      append_fits cfg f (publish true g.entry_id (do_flush (write_frame g s)))
        (omega (arith, fits)))

append-fits_both :
    (cfg : FileWalConfig) (f g : ParsedFrame) (s : ShardState)
    → s.segment_bytes + (frame_len g + frame_len f) ≤ cfg.segment_size_max
    → append cfg f (append cfg g s) ≡ write_frame f (write_frame g s)
unfolding write_frame
append-fits_both cfg f g s fits =
    rw (append_fits cfg g s (omega (arith, fits)))
      (append_fits cfg f (write_frame g s) (omega (arith, fits)))

-- For two entries that both fit into the segment: the entry with the higher id is written, synced
-- and published before the one with the lower id is written. Then the appender of the lower one,
-- which asked for a sync, returns at once; of the segment all entries are synced but that one, and
-- the older segments are as they were.
pub append-returns_early :
    (cfg : FileWalConfig) (f g : ParsedFrame) (s : ShardState)
    → s.segment_bytes + (frame_len g + frame_len f) ≤ cfg.segment_size_max
    → f.entry_id < g.entry_id
    → let t = append cfg f (publish true g.entry_id (do_flush (append cfg g s))) in
      (wait_durable fsync f.entry_id false t ≡ returned)
      × (t.current ≡ record {
        durable = s.current.durable ++ (s.current.buffered ++ g ∷ []);
        buffered = f ∷ [];
      })
      × (t.older ≡ s.older)
unfolding wait_durable is_pending publish do_flush write_frame
append-returns_early cfg f g s fits lower =
    rw (append-fits_synced cfg f g s fits) (ground arith, refl, refl)

-- For two entries that both fit into the segment, when the lower id is above what is published and no
-- shutdown is asked for: both are written before the flusher picks its target, the higher id first.
-- Then the round of the flusher syncs all entries of the segment, these two as the last, publishes
-- the lower id, and finds nothing more to do, while the appender of the higher one goes on waiting.
pub append-stalls :
    (cfg : FileWalConfig) (f g : ParsedFrame) (s : ShardState) (woken : Bool)
    → s.segment_bytes + (frame_len g + frame_len f) ≤ cfg.segment_size_max
    → f.entry_id < g.entry_id
    → is_pending s.last_durable f.entry_id ≡ true
    → s.shutdown ≡ false
    → (pick_target (append cfg f (append cfg g s)) ≡ some f.entry_id)
      × (let t = publish true f.entry_id (do_flush (append cfg f (append cfg g s))) in
          (pick_target t ≡ none)
          × (wait_durable fsync g.entry_id woken t ≡ waiting)
          × (t.current ≡ record {
            durable = s.current.durable ++ (s.current.buffered ++ g ∷ f ∷ []);
            buffered = [];
          }))
unfolding wait_durable is_pending publish do_flush pick_target write_frame
append-stalls cfg f g s woken fits lower pending live = rw (append-fits_both cfg f g s fits) (
  rw pending refl,
  (ground arith, ground (arith, live), rw (append_assoc s.current.buffered (g ∷ []) (f ∷ [])) refl),
)
