-- ===== src/Replay/Wal/Serial.antt =====
-- One shard of a log that was opened without a segment, whose entries are written in the order of
-- their ids, at most 16 MiB each, and fit into the segment: what `last_durable` promises then.
use riftgate.Base.{
  ℕ, ◌+◌, ◌≤◌, ◌<◌, ◌≡◌, refl, Bool, true, false, Option, none, some, List, [], ◌∷◌, ◌++◌, arith,
  All, All-append, Bool-cases, inl, inr, Option-cases, ltb-eq-false, append_assoc, append_nil, sym,
  subst, ◌∙◌,
}
use riftgate.Core.Request.{Bytes}
use riftgate.Replay.Frame.{ParsedFrame}
use riftgate.Replay.Frame.Recovery.{IsEntry}
use riftgate.Replay.Wal.{
  FileWalConfig, ShardState, Durability, opened_shard, append, new_frame, write_frame, frame_len,
  is_pending, pick_target, do_flush, publish, request_shutdown,
}

-- Where the flusher's thread stands.
pub data Flusher : Type 0 where
  idle : Flusher
  picked : ℕ → Flusher
  flushed : Bool → ℕ → Flusher

pub record System : Type 0 where
  pub shard : ShardState
  pub next_entry_id : ℕ
  pub flusher : Flusher

-- `FileWal::open` of a log that has no segment yet.
abbrev pub opened : System
opened = record { shard = opened_shard 0; next_entry_id = 1; flusher = idle }

-- The steps: an appender that draws its id and writes at once, an entry whose payload the parser
-- takes (at most 16 MiB), that needs no rollover and whose write does not fail; an appender of
-- another shard, or one that fails before it writes, of which both only draw an id; the three lock sections of the flusher, of which the sync
-- may fail; and the shutdown.
pub data Step (cfg : FileWalConfig) : System → System → Type 0 where
  appended :
      (y : System) (now : ℕ) (durability : Durability) (bytes : Bytes)
      → IsEntry (new_frame y.next_entry_id now durability bytes)
      → y.shard.segment_bytes + frame_len (new_frame y.next_entry_id now durability bytes)
        ≤ cfg.segment_size_max
      → Step cfg y (record y {
        shard = append cfg (new_frame y.next_entry_id now durability bytes) y.shard;
        next_entry_id = y.next_entry_id + 1;
      })
  drawn : (y : System) → Step cfg y (record y { next_entry_id = y.next_entry_id + 1 })
  picking :
      (y : System) (target : ℕ)
      → y.flusher ≡ idle
      → pick_target y.shard ≡ some target
      → Step cfg y (record y { flusher = picked target })
  synced :
      (y : System) (target : ℕ)
      → y.flusher ≡ picked target
      → Step cfg y (record y { shard = do_flush y.shard; flusher = flushed true target })
  sync_failed :
      (y : System) (target : ℕ)
      → y.flusher ≡ picked target
      → Step cfg y (record y { flusher = flushed false target })
  publishing :
      (y : System) (ok : Bool) (target : ℕ)
      → y.flusher ≡ flushed ok target
      → Step cfg y (record y { shard = publish ok target y.shard; flusher = idle })
  stopping : (y : System) → Step cfg y (record y { shard = request_shutdown y.shard })

pub data Reach (cfg : FileWalConfig) : System → Type 0 where
  start : Reach cfg opened
  next : {y z : System} → Reach cfg y → Step cfg y z → Reach cfg z

-- Every frame has an id above `d`; below `n`.
abbrev pub Above : Option ℕ → List ParsedFrame → Type 0
Above d fs = All (λ f. is_pending d f.entry_id ≡ true) fs

abbrev pub Below : ℕ → Option ℕ → Type 0
Below n none = Unit
Below n (some d) = d < n

-- What the flusher's place promises of the frames that are not synced.
abbrev Promise : Flusher → ℕ → List ParsedFrame → Type 0
Promise idle n fs = Unit
Promise (picked target) n fs = target < n
Promise (flushed true target) n fs = (target < n) × Above (some target) fs
Promise (flushed false target) n fs = Unit

pub record IsSerial (y : System) : Type 0 where
  pub entries : All IsEntry (y.shard.current.durable ++ y.shard.current.buffered)
  pub unsynced : Above y.shard.last_durable y.shard.current.buffered
  pub buffered_below : Below y.next_entry_id y.shard.last_buffered
  pub durable_below : Below y.next_entry_id y.shard.last_durable
  pub promise : Promise y.flusher y.next_entry_id y.shard.current.buffered
  pub older : y.shard.older ≡ []

opened-IsSerial : IsSerial opened
unfolding opened_shard
opened-IsSerial = record {
  entries = tt;
  unsynced = tt;
  buffered_below = tt;
  durable_below = tt;
  promise = tt;
  older = refl;
}

pub append_fits :
    (cfg : FileWalConfig) (f : ParsedFrame) (s : ShardState)
    → s.segment_bytes + frame_len f ≤ cfg.segment_size_max
    → append cfg f s ≡ write_frame f s
unfolding append
append_fits cfg f s h =
    rw (ltb-eq-false cfg.segment_size_max (s.segment_bytes + frame_len f) h) refl

Below-is_pending : (n : ℕ) (d : Option ℕ) → Below n d → is_pending d n ≡ true
unfolding is_pending
Below-is_pending n none h = refl
Below-is_pending n (some d) h = ground arith

Below-suc : (n : ℕ) (d : Option ℕ) → Below n d → Below (n + 1) d
Below-suc n none h = tt
Below-suc n (some d) h = omega arith

-- Frames that are there keep what they are known to be when one is added that has it too.
Above-add :
    (d : Option ℕ) (fs : List ParsedFrame) (f : ParsedFrame)
    → Above d fs
    → is_pending d f.entry_id ≡ true
    → Above d (fs ++ f ∷ [])
Above-add d fs f h k =
    All-append (λ (g : ParsedFrame). is_pending d g.entry_id ≡ true) fs (f ∷ []) h (k, tt)

Promise-add :
    (p : Flusher) (n : ℕ) (fs : List ParsedFrame) (f : ParsedFrame)
    → f.entry_id ≡ n
    → Promise p n fs
    → Promise p (n + 1) (fs ++ f ∷ [])
unfolding is_pending
Promise-add idle n fs f e h = tt
Promise-add (picked target) n fs f e h = omega arith
Promise-add (flushed true target) n fs f e (lt, above) =
    (omega arith, Above-add (some target) fs f above (ground arith))
Promise-add (flushed false target) n fs f e h = tt

Promise-suc : (p : Flusher) (n : ℕ) (fs : List ParsedFrame) → Promise p n fs → Promise p (n + 1) fs
Promise-suc idle n fs h = tt
Promise-suc (picked target) n fs h = omega arith
Promise-suc (flushed true target) n fs (lt, above) = (omega arith, above)
Promise-suc (flushed false target) n fs h = tt

appended-IsSerial :
    (cfg : FileWalConfig) (y : System) (f : ParsedFrame)
    → f.entry_id ≡ y.next_entry_id
    → IsEntry f
    → y.shard.segment_bytes + frame_len f ≤ cfg.segment_size_max
    → IsSerial y
    → IsSerial (record y { shard = append cfg f y.shard; next_entry_id = y.next_entry_id + 1 })
unfolding write_frame
appended-IsSerial cfg y f e entry fits v = rw (append_fits cfg f y.shard fits) (record {
  entries =
      subst (λ fs. All IsEntry fs)
        (append_assoc y.shard.current.durable y.shard.current.buffered (f ∷ []))
        (All-append IsEntry (y.shard.current.durable ++ y.shard.current.buffered) (f ∷ []) v.entries
          (entry, tt));
  unsynced =
      Above-add y.shard.last_durable y.shard.current.buffered f v.unsynced
        (rw e (Below-is_pending y.next_entry_id y.shard.last_durable v.durable_below));
  buffered_below = omega (arith, e);
  durable_below = Below-suc y.next_entry_id y.shard.last_durable v.durable_below;
  promise = Promise-add y.flusher y.next_entry_id y.shard.current.buffered f e v.promise;
  older = v.older;
})

pick_target-some :
    (s : ShardState) (target : ℕ) → pick_target s ≡ some target → s.last_buffered ≡ some target
unfolding pick_target
pick_target-some s target e = elim (Option-cases s.last_buffered) [
  | inl empty ↦ cc (rw empty at e)
  | inr (t, there) ↦ elim (Bool-cases (is_pending s.last_durable t)) [
    | inl pending ↦ there ∙ rw (there, pending) at e
    | inr old ↦ cc (rw (there, old) at e)
  ]
]

Step-IsSerial : (cfg : FileWalConfig) {y z : System} → Step cfg y z → IsSerial y → IsSerial z
unfolding do_flush publish request_shutdown new_frame
Step-IsSerial cfg (appended y now durability bytes entry fits) v =
    appended-IsSerial cfg y (new_frame y.next_entry_id now durability bytes) refl entry fits v
Step-IsSerial cfg (drawn y) v = record {
  entries = v.entries;
  unsynced = v.unsynced;
  buffered_below = Below-suc y.next_entry_id y.shard.last_buffered v.buffered_below;
  durable_below = Below-suc y.next_entry_id y.shard.last_durable v.durable_below;
  promise = Promise-suc y.flusher y.next_entry_id y.shard.current.buffered v.promise;
  older = v.older;
}
Step-IsSerial cfg (picking y target e found) v = record {
  entries = v.entries;
  unsynced = v.unsynced;
  buffered_below = v.buffered_below;
  durable_below = v.durable_below;
  promise = subst (Below y.next_entry_id) (pick_target-some y.shard target found) v.buffered_below;
  older = v.older;
}
Step-IsSerial cfg (synced y target e) v = record {
  entries =
      subst (λ fs. All IsEntry fs)
        (sym (append_nil (y.shard.current.durable ++ y.shard.current.buffered))) v.entries;
  unsynced = tt;
  buffered_below = v.buffered_below;
  durable_below = v.durable_below;
  promise = (subst (λ p. Promise p y.next_entry_id y.shard.current.buffered) e v.promise, tt);
  older = v.older;
}
Step-IsSerial cfg (sync_failed y target e) v = record {
  entries = v.entries;
  unsynced = v.unsynced;
  buffered_below = v.buffered_below;
  durable_below = v.durable_below;
  promise = tt;
  older = v.older;
}
Step-IsSerial cfg (publishing y true target e) v =
    let kept = subst (λ p. Promise p y.next_entry_id y.shard.current.buffered) e v.promise in
    record {
      entries = v.entries;
      unsynced = kept.1;
      buffered_below = v.buffered_below;
      durable_below = kept.0;
      promise = tt;
      older = v.older;
    }
Step-IsSerial cfg (publishing y false target e) v = record {
  entries = v.entries;
  unsynced = v.unsynced;
  buffered_below = v.buffered_below;
  durable_below = v.durable_below;
  promise = tt;
  older = v.older;
}
Step-IsSerial cfg (stopping y) v = record {
  entries = v.entries;
  unsynced = v.unsynced;
  buffered_below = v.buffered_below;
  durable_below = v.durable_below;
  promise = v.promise;
  older = v.older;
}

pub Reach-IsSerial : (cfg : FileWalConfig) {y : System} → Reach cfg y → IsSerial y
Reach-IsSerial cfg start = opened-IsSerial
Reach-IsSerial cfg (next r step) = Step-IsSerial cfg step (Reach-IsSerial cfg r)
