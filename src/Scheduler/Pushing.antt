-- ===== src/Scheduler/Pushing.antt =====
-- When `push` finds a place, and where.
use riftgate.Base.{
  ℕ, zero, suc, ◌+◌, ◌-◌, ◌%◌, ◌≤◌, ◌<◌, ◌≡◌, refl, sym, ◌∙◌, ap, subst, inl, inr, Option, none,
  some, List, [], ◌∷◌, ◌++◌, length, get_elem?, get_elem?-lt, lt_of_get_elem?, set, ltb, ltb→lt,
  le_of_ltb, Bool-cases, Option-cases, arith,
}
use native.Mathlib.Nat.{mod-lt, mod-eq_of_lt, add-mod_right}
use riftgate.Scheduler.{Channel, IsFifo, ShardedMpmcQueue, push_loop, push, usize_mod}

-- Going round from any start, each index is met within one round.
pub round_meets : (n start i : ℕ) → start < n → i < n → (o : ℕ) × (o < n) × ((start + o) % n ≡ i)
round_meets n start i hs hi = elim (Bool-cases (ltb i start)) [
  | inl below ↦
      let lt = ltb→lt i start below in
      let turn : start + (i + n - start) ≡ i + n = omega (arith, hs) in
      (i + n - start, omega (arith, lt), ap (λ k. k % n) turn ∙ add-mod_right i n ∙ mod-eq_of_lt hi)
  | inr above ↦
      let le = le_of_ltb i start above in
      let there : start + (i - start) ≡ i = omega (arith, le) in
      (i - start, omega (arith, hi), ap (λ k. k % n) there ∙ mod-eq_of_lt hi)
]

module _ {A : Type 0} (ch : Channel A) (fifo : IsFifo ch) where
  abbrev pub IsFull : ch.State → Type 0
  IsFull s = fifo.capacity s ≤ length (fifo.items s)

  -- One shard had room and has the item behind its others.
  abbrev pub Placed : List ch.State → A → List ch.State → Type 0
  Placed shards item shards' =
      (i : ℕ) × (s : ch.State) × (t : ch.State) × (get_elem? shards i ≡ some s)
      × (length (fifo.items s) < fifo.capacity s)
      × (fifo.items t ≡ fifo.items s ++ item ∷ [])
      × (shards' ≡ set shards i t)

  -- The loop puts the item into a shard, or all the shards that it asks are full.
  abbrev LoopOutcome : ℕ → ℕ → ℕ → List ch.State → A → Option (List ch.State) → Type 0
  LoopOutcome remaining start offset shards item none =
      (o : ℕ)
      → offset ≤ o
      → o < offset + remaining
      → (s : ch.State) → get_elem? shards ((start + o) % length shards) ≡ some s
      → IsFull s
  LoopOutcome remaining start offset shards item (some shards') = Placed shards item shards'

  widen :
      (remaining start offset : ℕ) (shards : List ch.State) (item : A) (s : ch.State)
      → get_elem? shards ((start + offset) % length shards) ≡ some s
      → IsFull s
      → (found : Option (List ch.State))
      → LoopOutcome remaining start (offset + 1) shards item found
      → LoopOutcome (suc remaining) start offset shards item found
  widen remaining start offset shards item s there full (some shards') h = h
  widen remaining start offset shards item s there full none h = λ o le lt r e.
      elim (Bool-cases (ltb offset o)) [
        | inl further ↦
            let gt = ltb→lt offset o further in h o (omega (arith, gt)) (omega arith) r e
        | inr here ↦
            let same : o ≡ offset = omega (arith, le_of_ltb offset o here) in
            let found : get_elem? shards ((start + offset) % length shards) ≡ some r =
              subst (λ k. get_elem? shards ((start + k) % length shards) ≡ some r) same e in
            let equal : s ≡ r = cc (there, found) in subst IsFull equal full
      ]

  push_loop_full :
      (remaining start offset : ℕ) (shards : List ch.State) (item : A) (s : ch.State)
      → get_elem? shards ((start + offset) % length shards) ≡ some s
      → ch.try_send s item ≡ none
      → push_loop ch (suc remaining) start offset shards item
        ≡ push_loop ch remaining start (offset + 1) shards item
  unfolding push_loop
  push_loop_full remaining start offset shards item s there back = rw (push_loop, there, back) refl

  push_loop_room :
      (remaining start offset : ℕ) (shards : List ch.State) (item : A) (s t : ch.State)
      → get_elem? shards ((start + offset) % length shards) ≡ some s
      → ch.try_send s item ≡ some t
      → push_loop ch (suc remaining) start offset shards item
        ≡ some (set shards ((start + offset) % length shards) t)
  unfolding push_loop
  push_loop_room remaining start offset shards item s t there sent =
      rw (push_loop, there, sent) refl

  push_loop-outcome :
      (remaining start offset : ℕ) (shards : List ch.State) (item : A)
      → 0 < length shards
      → LoopOutcome remaining start offset shards item
          (push_loop ch remaining start offset shards item)
  unfolding push_loop
  push_loop-outcome zero start offset shards item h = λ o le lt s e. absurd (omega arith)
  push_loop-outcome (suc remaining) start offset shards item h =
      let target = (start + offset) % length shards in
      let (s, there) = get_elem?-lt shards target (mod-lt (start + offset) h) in
      elim (Bool-cases (ltb (length (fifo.items s)) (fifo.capacity s))) [
        | inl room ↦
            let lt = ltb→lt _ _ room in
            let (t, sent, items, cap) = fifo.send_room s item lt in
            subst (LoopOutcome (suc remaining) start offset shards item)
              (sym (push_loop_room remaining start offset shards item s t there sent))
              (target, s, t, there, lt, items, refl)
        | inr no_room ↦
            let full = le_of_ltb _ _ no_room in
            let back = fifo.send_full s item full in
            let rest = push_loop-outcome remaining start (offset + 1) shards item h in
            subst (LoopOutcome (suc remaining) start offset shards item)
              (sym (push_loop_full remaining start offset shards item s there back))
              (widen remaining start offset shards item s there full
                (push_loop ch remaining start (offset + 1) shards item) rest)
      ]

  -- What `push` did with the item: it handed it back and left the shards, all of which are full, or
  -- it took it.
  abbrev pub PushOutcome : ShardedMpmcQueue ch → A → ShardedMpmcQueue ch × Option A → Type 0
  PushOutcome q item (r, some back) =
      (back ≡ item)
      × (r.shards ≡ q.shards)
      × ((i : ℕ) (s : ch.State) → get_elem? q.shards i ≡ some s → IsFull s)
  PushOutcome q item (r, none) = Placed q.shards item r.shards

  push_back :
      (q : ShardedMpmcQueue ch) (item : A)
      → push_loop ch (length q.shards) (q.cursor % length q.shards) 0 q.shards item ≡ none
      → push ch q item
        ≡ (record { shards = q.shards; cursor = (q.cursor + 1) % usize_mod }, some item)
  unfolding push
  push_back q item e = rw (push, e) refl

  push_taken :
      (q : ShardedMpmcQueue ch) (item : A) (shards' : List ch.State)
      → push_loop ch (length q.shards) (q.cursor % length q.shards) 0 q.shards item ≡ some shards'
      → push ch q item ≡ (record { shards = shards'; cursor = (q.cursor + 1) % usize_mod }, none)
  unfolding push
  push_taken q item shards' e = rw (push, e) refl

  -- A push to a queue that has a shard puts its item behind those of one shard that had room, and
  -- changes no other shard; or it hands the item back and changes none, and then every shard is full.
  pub push-outcome :
      (q : ShardedMpmcQueue ch) (item : A)
      → 0 < length q.shards
      → PushOutcome q item (push ch q item)
  push-outcome q item h =
      let n = length q.shards in
      let start = q.cursor % n in
      let outcome = push_loop-outcome n start 0 q.shards item h in
      elim (Option-cases (push_loop ch n start 0 q.shards item)) [
        | inl back ↦
            let asked = subst (LoopOutcome n start 0 q.shards item) back outcome in
            subst (PushOutcome q item) (sym (push_back q item back)) (
              refl,
              refl,
              λ i s there.
                  let (o, small, meets) =
                    round_meets n start i (mod-lt q.cursor h)
                      (lt_of_get_elem? q.shards i s there) in
                  asked o (omega arith) (omega (arith, small)) s
                    (ap (get_elem? q.shards) meets ∙ there),
            )
        | inr (shards', found) ↦
            subst (PushOutcome q item) (sym (push_taken q item shards' found))
              (subst (LoopOutcome n start 0 q.shards item) found outcome)
      ]
