-- ===== src/Replay/Wal/Rollover.antt =====
-- The segment that a rollover closes.
use riftgate.Base.{ℕ, ◌+◌, ◌≤◌, ◌<◌, ◌≡◌, refl, Bool, true, some, ◌∷◌, arith, lt→ltb}
use riftgate.Replay.Frame.{ParsedFrame}
use riftgate.Replay.Wal.{
  FileWalConfig, ShardState, fsync, append, write_frame, rollover, frame_len, is_pending,
  pick_target, do_flush, publish, returned, wait_durable,
}

append_over :
    (cfg : FileWalConfig) (f : ParsedFrame) (s : ShardState)
    → cfg.segment_size_max < s.segment_bytes + frame_len f
    → 0 < s.segment_bytes
    → append cfg f s ≡ write_frame f (rollover s)
unfolding append
append_over cfg f s full used = rw (lt→ltb _ _ full, lt→ltb _ _ used) refl

-- An append that rolls over, followed by a round of the flusher that succeeds: every entry up to
-- the new one counts as durable and its appender returns, while the segment that was closed has
-- exactly the entries unsynced that it had before.
pub append-rollover_unsynced :
    (cfg : FileWalConfig) (f : ParsedFrame) (s : ShardState) (entry_id : ℕ) (woken : Bool)
    → cfg.segment_size_max < s.segment_bytes + frame_len f
    → 0 < s.segment_bytes
    → is_pending s.last_durable f.entry_id ≡ true
    → entry_id ≤ f.entry_id
    → (pick_target (append cfg f s) ≡ some f.entry_id)
      × (wait_durable fsync entry_id woken (publish true f.entry_id (do_flush (append cfg f s)))
          ≡ returned)
      × ((publish true f.entry_id (do_flush (append cfg f s))).older ≡ s.current ∷ s.older)
unfolding pick_target wait_durable publish do_flush write_frame rollover is_pending
append-rollover_unsynced cfg f s entry_id woken full used pending below =
    rw (append_over cfg f s full used) (ground arith)
