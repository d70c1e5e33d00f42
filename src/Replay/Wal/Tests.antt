-- ===== src/Replay/Wal/Tests.antt =====
-- Logs of one and two entries.
use riftgate.Base.{
  ℕ, ◌+◌, ◌≤◌, ◌<◌, ◌≡◌, refl, true, false, none, some, [], ◌∷◌, ◌++◌, map, take, arith,
}
use riftgate.Replay.Frame.{ParsedFrame, parsed, try_parse_frames}
use riftgate.Replay.Frame.Recovery.{IsEntry}
use riftgate.Replay.Wal.{
  FileWalConfig, default_config, ShardState, opened_shard, append, write_frame, new_frame, fsync,
  wait_durable, returned, waiting, publish, do_flush, pick_target, is_pending, frame_len,
}
use riftgate.Replay.Wal.Serial.{System, opened, appended, Reach, start, next, Above}
use riftgate.Replay.Wal.Crash.{surviving, surviving-recovered}
use riftgate.Replay.Wal.Rollover.{append-rollover_unsynced}
use riftgate.Replay.Wal.Races.{append-returns_early, append-stalls}

abbrev first : ParsedFrame
first = new_frame 1 5 fsync (7 ∷ [])

abbrev second : ParsedFrame
second = new_frame 2 6 fsync (8 ∷ 9 ∷ [])

first-IsEntry : IsEntry first
unfolding new_frame
first-IsEntry = record {
  id_fits = omega arith;
  time_fits = omega arith;
  payload_fits = omega arith;
}

first_fits : opened.shard.segment_bytes + frame_len first ≤ default_config.segment_size_max
unfolding new_frame opened_shard
first_fits = omega arith

abbrev one : System
one = record opened {
  shard = append default_config first opened.shard;
  next_entry_id = opened.next_entry_id + 1;
}

one-Reach : Reach default_config one
one-Reach = next start (appended opened 5 fsync (7 ∷ []) first-IsEntry first_fits)

surviving-recovered_example :
    (k : ℕ) × (try_parse_frames (surviving one.shard.current 10)
      ≡ map parsed (one.shard.current.durable ++ take k one.shard.current.buffered))
    × Above one.shard.last_durable one.shard.current.buffered
surviving-recovered_example = surviving-recovered default_config one 10 one-Reach

abbrev small : FileWalConfig
small = record default_config { segment_size_max = 30 }

abbrev used : ShardState
used = write_frame first (opened_shard 0)

used_full : small.segment_size_max < used.segment_bytes + frame_len second
unfolding write_frame new_frame opened_shard
used_full = omega arith

used_some : 0 < used.segment_bytes
unfolding write_frame new_frame opened_shard
used_some = omega arith

used_pending : is_pending used.last_durable second.entry_id ≡ true
unfolding write_frame new_frame opened_shard is_pending
used_pending = refl

first_below : first.entry_id ≤ second.entry_id
unfolding new_frame
first_below = omega arith

first_lower : first.entry_id < second.entry_id
unfolding new_frame
first_lower = omega arith

append-rollover_unsynced_example :
    (pick_target (append small second used) ≡ some second.entry_id)
    × (wait_durable fsync first.entry_id true
          (publish true second.entry_id (do_flush (append small second used)))
        ≡ returned)
    × ((publish true second.entry_id (do_flush (append small second used))).older
        ≡ used.current ∷ used.older)
append-rollover_unsynced_example =
    append-rollover_unsynced small second used first.entry_id true used_full used_some used_pending
      first_below

both_fit :
    (opened_shard 0).segment_bytes + (frame_len second + frame_len first)
    ≤ default_config.segment_size_max
unfolding new_frame opened_shard
both_fit = omega arith

append-returns_early_example :
    let t =
      append default_config first
        (publish true second.entry_id (do_flush (append default_config second (opened_shard 0)))) in
    (wait_durable fsync first.entry_id false t ≡ returned)
    × (t.current ≡ record {
      durable =
          (opened_shard 0).current.durable ++ ((opened_shard 0).current.buffered ++ second ∷ []);
      buffered = first ∷ [];
    })
    × (t.older ≡ (opened_shard 0).older)
append-returns_early_example =
    append-returns_early default_config first second (opened_shard 0) both_fit first_lower

fresh_pending : is_pending (opened_shard 0).last_durable first.entry_id ≡ true
unfolding opened_shard is_pending
fresh_pending = refl

fresh_live : (opened_shard 0).shutdown ≡ false
unfolding opened_shard
fresh_live = refl

append-stalls_example :
    let both = append default_config first (append default_config second (opened_shard 0)) in
    (pick_target both ≡ some first.entry_id)
    × (let t = publish true first.entry_id (do_flush both) in
        (pick_target t ≡ none)
        × (wait_durable fsync second.entry_id true t ≡ waiting)
        × (t.current ≡ record {
          durable =
              (opened_shard 0).current.durable
              ++ ((opened_shard 0).current.buffered ++ second ∷ first ∷ []);
          buffered = [];
        }))
append-stalls_example =
    append-stalls default_config first second (opened_shard 0) true both_fit first_lower
      fresh_pending fresh_live
