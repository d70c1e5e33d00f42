-- ===== src/Scheduler.antt =====
-- crates/riftgate/src/scheduler.rs: the sharded queue and the workers of the per-shard scheduler.
mod Tests
pub mod Pushing
pub mod Popping
pub mod Draining
use riftgate.Base.{
  ℕ, zero, suc, ◌+◌, ◌-◌, ◌%◌, ◌^◌, ◌≤◌, ◌<◌, ◌≡◌, Bool, true, false, Option, none, some, List, [],
  ◌∷◌, ◌++◌, length, get_elem?, set, replicate, if◌then◌else◌, ltb,
}

-- The bounded channel of the crate crossbeam-channel: `try_send` is `none` where it hands the item
-- back, `try_recv` where nothing is there.
pub record Channel (A : Type 0) : Type 1 where
  pub State : Type 0
  pub bounded : ℕ → State
  pub try_send : State → A → Option State
  pub try_recv : State → Option (A × State)
  pub len : State → ℕ

-- What its documentation says: a first-in first-out queue of at most its capacity.
pub record IsFifo {A : Type 0} (ch : Channel A) : Type 0 where
  pub items : ch.State → List A
  pub capacity : ch.State → ℕ
  pub bounded_items : (n : ℕ) → items (ch.bounded n) ≡ []
  pub bounded_capacity : (n : ℕ) → capacity (ch.bounded n) ≡ n
  pub send_room :
      (s : ch.State) (x : A)
      → length (items s) < capacity s
      → (t : ch.State) × (ch.try_send s x ≡ some t)
        × (items t ≡ items s ++ x ∷ [])
        × (capacity t ≡ capacity s)
  pub send_full : (s : ch.State) (x : A) → capacity s ≤ length (items s) → ch.try_send s x ≡ none
  pub recv_empty : (s : ch.State) → items s ≡ [] → ch.try_recv s ≡ none
  pub recv_first :
      (s : ch.State) (x : A) (xs : List A)
      → items s ≡ x ∷ xs
      → (t : ch.State) × (ch.try_recv s ≡ some (x, t)) × (items t ≡ xs) × (capacity t ≡ capacity s)
  pub len_items : (s : ch.State) → ch.len s ≡ length (items s)

abbrev pub usize_mod : ℕ
usize_mod = 2 ^ 64

module _ {A : Type 0} (ch : Channel A) where
  -- `MpmcQueue::bounded`, whose assertion fails on 0.
  pub bounded_queue : ℕ → Option ch.State
  bounded_queue zero = none
  bounded_queue (suc n) = some (ch.bounded (suc n))

  pub record ShardedMpmcQueue : Type 0 where
    pub shards : List ch.State
    pub cursor : ℕ

  -- `new`; the shards are made one after the other.
  pub new_sharded : ℕ → ℕ → Option ShardedMpmcQueue
  unfolding bounded_queue
  new_sharded zero capacity = none
  new_sharded (suc n) capacity = elim (bounded_queue capacity) [
    | none ↦ none
    | some s ↦ some (record { shards = replicate (suc n) s; cursor = 0 })
  ]

  -- The loop of `push` over `remaining` shards from an offset on; `none` when all hand the item back.
  pub push_loop : ℕ → ℕ → ℕ → List ch.State → A → Option (List ch.State)
  push_loop zero start offset shards item = none
  push_loop (suc remaining) start offset shards item =
      let target = (start + offset) % length shards in
      let rest = push_loop remaining start (offset + 1) shards item in
      elim (get_elem? shards target) [
        | none ↦ none
        | some s ↦ elim (ch.try_send s item) [ none ↦ rest | some t ↦ some (set shards target t) ]
      ]

  -- The item that `push` hands back is the second part.
  pub push : ShardedMpmcQueue → A → ShardedMpmcQueue × Option A
  unfolding push_loop
  push q item =
      let start = q.cursor % length q.shards in
      let cursor' = (q.cursor + 1) % usize_mod in
      elim (push_loop (length q.shards) start 0 q.shards item) [
        | none ↦ (record { shards = q.shards; cursor = cursor' }, some item)
        | some shards' ↦ (record { shards = shards'; cursor = cursor' }, none)
      ]

  pub pop_from : ShardedMpmcQueue → ℕ → Option (A × ShardedMpmcQueue)
  pop_from q idx = elim (get_elem? q.shards idx) [
    | none ↦ none
    | some s ↦ elim (ch.try_recv s) [
      | none ↦ none
      | some (item, t) ↦ some (item, record q { shards = set q.shards idx t })
    ]
  ]

  -- The probes of `pop_or_steal` at the siblings.
  pub steal_loop : ℕ → ℕ → ℕ → ShardedMpmcQueue → Option (A × ShardedMpmcQueue)
  unfolding pop_from
  steal_loop zero idx offset q = none
  steal_loop (suc remaining) idx offset q =
      let rest = steal_loop remaining idx (offset + 1) q in
      elim (pop_from q ((idx + offset) % length q.shards)) [ none ↦ rest | some found ↦ some found ]

  pub pop_or_steal : ShardedMpmcQueue → ℕ → Option (A × ShardedMpmcQueue)
  unfolding pop_from steal_loop
  pop_or_steal q idx = elim (pop_from q idx) [
    | none ↦ steal_loop (length q.shards - 1) idx 1 q
    | some found ↦ some found
  ]

  pub sharded_len : List ch.State → ℕ
  sharded_len [] = 0
  sharded_len (s ∷ shards) = ch.len s + sharded_len shards

  -- `submit`: the item that is handed back is dropped.
  pub submit : ShardedMpmcQueue → A → ShardedMpmcQueue
  unfolding push
  submit q task = (push q task).0

  -- The drain after the shutdown was seen, and the worker of a shard, on fuel, as they run with no
  -- other thread at the shard: the tasks that ran, the queue, and whether the loop ended. A round
  -- without a task sleeps if there is no shutdown.
  pub drain_loop : ℕ → ℕ → ShardedMpmcQueue → List A × (ShardedMpmcQueue × Bool)
  unfolding pop_from
  drain_loop zero idx q = ([], (q, false))
  drain_loop (suc fuel) idx q = elim (pop_from q idx) [
    | some (task, q') ↦ let (ran, end) = drain_loop fuel idx q' in (task ∷ ran, end)
    | none ↦ ([], (q, true))
  ]

  pub worker_loop : ℕ → ℕ → Bool → ShardedMpmcQueue → List A × (ShardedMpmcQueue × Bool)
  unfolding pop_from drain_loop
  worker_loop zero idx shutdown q = ([], (q, false))
  worker_loop (suc fuel) idx shutdown q = elim (pop_from q idx) [
    | some (task, q') ↦ let (ran, end) = worker_loop fuel idx shutdown q' in (task ∷ ran, end)
    | none ↦ if shutdown then drain_loop (suc fuel) idx q else worker_loop fuel idx shutdown q
  ]
