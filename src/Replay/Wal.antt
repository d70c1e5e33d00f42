-- ===== src/Replay/Wal.antt =====
-- crates/riftgate-replay/src/file_wal.rs: one shard of the log, its appenders and its flusher. Each
-- operation here is what the code does while it holds the shard's lock, where no call of the file
-- system fails but the sync of the flusher.
mod Tests
pub mod Serial
pub mod Crash
pub mod Rollover
pub mod Races
use riftgate.Base.{
  ℕ, zero, suc, ◌+◌, ◌*◌, ◌%◌, ◌^◌, Bool, true, false, ◌&&◌, ◌||◌, not, Option, none, some, List,
  [], ◌∷◌, ◌++◌, ltb, leb, if◌then◌else◌, length, get_elem?,
}
use riftgate.Core.Request.{Bytes}
use riftgate.Replay.Frame.{ParsedFrame, entry_header_bytes, entry_kind_default}

pub data Durability : Type 0 where
  async fsync fdatasync : Durability

abbrev pub durability_tag : Durability → ℕ
durability_tag async = 0
durability_tag fdatasync = 1
durability_tag fsync = 2

-- The settings of a log; a time is a number of nanoseconds.
pub record FileWalConfig : Type 0 where
  pub shards : ℕ
  pub segment_size_max : ℕ
  pub flush_interval : ℕ
  pub flush_buffer_bytes : ℕ

abbrev pub default_config : FileWalConfig
default_config = record {
  shards = 1;
  segment_size_max = 64 * 1024 * 1024;
  flush_interval = 5 * 1000000;
  flush_buffer_bytes = 1024 * 1024;
}

-- A segment file as the frames written to it: `durable` are on the disk, `buffered` in the writer
-- or the kernel.
pub record Segment : Type 0 where
  pub durable : List ParsedFrame
  pub buffered : List ParsedFrame

abbrev pub no_frames : Segment
no_frames = record { durable = []; buffered = [] }

-- `current` is the writer's segment, `older` the segments closed before it, the newest first.
pub record ShardState : Type 0 where
  pub seqno : ℕ
  pub segment_bytes : ℕ
  pub current : Segment
  pub older : List Segment
  pub last_buffered : Option ℕ
  pub last_durable : Option ℕ
  pub shutdown : Bool

-- The state that `open` gives a shard with an empty segment.
pub opened_shard : ℕ → ShardState
opened_shard seqno = record {
  seqno = seqno;
  segment_bytes = 0;
  current = no_frames;
  older = [];
  last_buffered = none;
  last_durable = none;
  shutdown = false;
}

-- `FileWal::shard_for`.
pub shard_for {ℓ} : {A : Type ℓ} → List A → ℕ → Option A
shard_for shards entry_id = elim shards [
  | [] ↦ none
  | s ∷ rest ↦ get_elem? (s ∷ rest) (entry_id % suc (length rest))
]

abbrev pub u32_mod : ℕ
u32_mod = 2 ^ 32

-- `u32::try_from(bytes.len())`; `none` is the error of an entry that is too large.
pub payload_len : Bytes → Option ℕ
payload_len bytes = if ltb (length bytes) u32_mod then some (length bytes) else none

-- The old writer is flushed to the kernel and dropped; nothing is synced.
pub rollover : ShardState → ShardState
rollover s = record s {
  seqno = s.seqno + 1;
  segment_bytes = 0;
  current = no_frames;
  older = s.current ∷ s.older;
}

pub new_frame : ℕ → ℕ → Durability → Bytes → ParsedFrame
new_frame entry_id now durability bytes = record {
  entry_id = entry_id;
  timestamp_nanos = now;
  durability_tag = durability_tag durability;
  entry_kind = entry_kind_default;
  payload = bytes;
}

abbrev pub frame_len : ParsedFrame → ℕ
frame_len f = entry_header_bytes + length f.payload

-- The frame is written behind the others.
pub write_frame : ParsedFrame → ShardState → ShardState
write_frame f s = record s {
  current = record { durable = s.current.durable; buffered = s.current.buffered ++ f ∷ [] };
  segment_bytes = s.segment_bytes + frame_len f;
  last_buffered = some f.entry_id;
}

-- `append` from the lock to the wait, where the flush and the opening of a rollover and the write of
-- the frame succeed. A failure of one of them leaves `append` with its error (`?`), and the entry
-- that was to be written is not counted in `last_buffered`; these exits are not modelled.
pub append : FileWalConfig → ParsedFrame → ShardState → ShardState
unfolding rollover write_frame
append cfg f s =
    if ltb cfg.segment_size_max (s.segment_bytes + frame_len f) && ltb 0 s.segment_bytes
    then write_frame f (rollover s)
    else write_frame f s

pub needs_immediate_flush : FileWalConfig → Durability → ShardState → Bool
needs_immediate_flush cfg fsync s = true
needs_immediate_flush cfg fdatasync s = true
needs_immediate_flush cfg async s = leb cfg.flush_buffer_bytes s.segment_bytes

-- `last_durable.map(|d| d.0 < id).unwrap_or(true)`.
pub is_pending : Option ℕ → ℕ → Bool
is_pending none id = true
is_pending (some d) id = ltb d id

pub data Waited : Type 0 where
  returned interrupted waiting : Waited

-- What the end of `append` does when it holds the lock: `woken` says that it has waited once.
pub wait_durable : Durability → ℕ → Bool → ShardState → Waited
unfolding is_pending
wait_durable async id woken s = returned
wait_durable fsync id woken s =
    if is_pending s.last_durable id
    then if woken && s.shutdown then interrupted else waiting
    else returned
wait_durable fdatasync id woken s =
    if is_pending s.last_durable id
    then if woken && s.shutdown then interrupted else waiting
    else returned

-- What `flush` waits for on one shard.
pub wait_flush : ℕ → ShardState → Waited
unfolding is_pending
wait_flush target s =
    if is_pending s.last_durable target && not s.shutdown then waiting else returned

-- The test at the head of the flusher's loop.
pub pick_target : ShardState → Option ℕ
unfolding is_pending
pick_target s = elim s.last_buffered [
  | none ↦ none
  | some target ↦ if is_pending s.last_durable target then some target else none
]

-- The flusher has nothing to do, and its thread ends.
pub flusher_ends : ShardState → Bool
unfolding pick_target
flusher_ends s = elim (pick_target s) [ none ↦ s.shutdown | some t ↦ false ]

-- `do_flush` where the sync succeeds.
pub do_flush : ShardState → ShardState
do_flush s = record s {
  current = record { durable = s.current.durable ++ s.current.buffered; buffered = [] };
}

pub publish : Bool → ℕ → ShardState → ShardState
publish ok target s = if ok then record s { last_durable = some target } else s

abbrev max_id : Option ℕ → Option ℕ → Option ℕ
max_id none d = d
max_id (some a) none = some a
max_id (some a) (some d) = if ltb a d then some d else some a

abbrev fold_durable : Option ℕ → List ShardState → Option ℕ
fold_durable best [] = best
fold_durable best (s ∷ rest) = fold_durable (max_id best s.last_durable) rest

-- `FileWal::last_durable`: the highest over the shards.
pub last_durable : List ShardState → Option ℕ
last_durable shards = fold_durable none shards

pub request_shutdown : ShardState → ShardState
request_shutdown s = record s { shutdown = true }

-- The tail of `open_initial_segment`: the highest number among the shard's segment files.
pub highest_seqno : List ℕ → Option ℕ
highest_seqno [] = none
highest_seqno (n ∷ rest) = max_id (some n) (highest_seqno rest)
