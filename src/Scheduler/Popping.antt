-- ===== src/Scheduler/Popping.antt =====
-- What `pop_from` and `pop_or_steal` take, and when they find nothing.
use riftgate.Base.{
  ℕ, zero, suc, ◌+◌, ◌-◌, ◌%◌, ◌≤◌, ◌<◌, ◌≡◌, refl, sym, ◌∙◌, ap, subst, ◌⊎◌, inl, inr, Option,
  none, some, List, [], ◌∷◌, length, get_elem?, get_elem?-lt, lt_of_get_elem?, set, ltb, ltb→lt,
  le_of_ltb, Bool-cases, arith,
}
use native.Mathlib.Nat.{mod-lt, mod-eq_of_lt}
use riftgate.Scheduler.{Channel, IsFifo, ShardedMpmcQueue, pop_from, steal_loop, pop_or_steal}
use riftgate.Scheduler.Pushing.{round_meets}

pub List-cases {ℓ} :
    {A : Type ℓ} (xs : List A) → (xs ≡ []) ⊎ ((x : A) × (ys : List A) × (xs ≡ x ∷ ys))
List-cases [] = inl refl
List-cases (x ∷ xs) = inr (x, xs, refl)

module _ {A : Type 0} (ch : Channel A) (fifo : IsFifo ch) where
  -- The first item of a shard, and the queue without it.
  abbrev pub TookAt : ShardedMpmcQueue ch → ℕ → A → ShardedMpmcQueue ch → Type 0
  TookAt q i item r =
      (s : ch.State) × (t : ch.State) × (get_elem? q.shards i ≡ some s)
      × (fifo.items s ≡ item ∷ fifo.items t)
      × (r ≡ record q { shards = set q.shards i t })

  abbrev pub IsEmptyAt : ShardedMpmcQueue ch → ℕ → Type 0
  IsEmptyAt q i = (s : ch.State) → get_elem? q.shards i ≡ some s → fifo.items s ≡ []

  pub pop_from_empty :
      (q : ShardedMpmcQueue ch) (i : ℕ) (s : ch.State)
      → get_elem? q.shards i ≡ some s
      → fifo.items s ≡ []
      → pop_from ch q i ≡ none
  unfolding pop_from
  pop_from_empty q i s there e = rw (pop_from, there, fifo.recv_empty s e) refl

  pub pop_from_first :
      (q : ShardedMpmcQueue ch) (i : ℕ) (s : ch.State) (x : A) (xs : List A)
      → get_elem? q.shards i ≡ some s
      → fifo.items s ≡ x ∷ xs
      → (t : ch.State) × (pop_from ch q i ≡ some (x, record q { shards = set q.shards i t }))
        × (fifo.items t ≡ xs)
  unfolding pop_from
  pop_from_first q i s x xs there e =
      let (t, got, items, cap) = fifo.recv_first s x xs e in
      (t, rw (pop_from, there, got) refl, items)

  abbrev Found : ShardedMpmcQueue ch → ℕ → Option (A × ShardedMpmcQueue ch) → Type 0
  Found q i none = IsEmptyAt q i
  Found q i (some (item, r)) = TookAt q i item r

  pop_from-Found :
      (q : ShardedMpmcQueue ch) (i : ℕ) → i < length q.shards → Found q i (pop_from ch q i)
  pop_from-Found q i h =
      let (s, there) = get_elem?-lt q.shards i h in
      elim (List-cases (fifo.items s)) [
        | inl empty ↦
            subst (Found q i) (sym (pop_from_empty q i s there empty))
              (λ r e. let same : s ≡ r = cc (there, e) in subst (λ u. fifo.items u ≡ []) same empty)
        | inr (x, xs, first) ↦
            let (t, got, rest) = pop_from_first q i s x xs there first in
            subst (Found q i) (sym got) (s, t, there, first ∙ ap (◌∷◌ x) (sym rest), refl)
      ]

  -- What a round of probes found: an item of some shard, or nothing in all that it asked.
  abbrev Stolen : ℕ → ℕ → ℕ → ShardedMpmcQueue ch → Option (A × ShardedMpmcQueue ch) → Type 0
  Stolen remaining idx offset q none =
      (o : ℕ) → offset ≤ o → o < offset + remaining → IsEmptyAt q ((idx + o) % length q.shards)
  Stolen remaining idx offset q (some (item, r)) = (i : ℕ) × TookAt q i item r

  -- One probe before the others.
  probe :
      (remaining idx offset : ℕ) (q : ShardedMpmcQueue ch)
      (first later : Option (A × ShardedMpmcQueue ch))
      → Found q ((idx + offset) % length q.shards) first
      → Stolen remaining idx (offset + 1) q later
      → Stolen (suc remaining) idx offset q (elim first [ none ↦ later | some found ↦ some found ])
  probe remaining idx offset q (some (item, r)) later f h = ((idx + offset) % length q.shards, f)
  probe remaining idx offset q none (some (item, r)) f h = h
  probe remaining idx offset q none none f h = λ o le lt. elim (Bool-cases (ltb offset o)) [
    | inl further ↦ let gt = ltb→lt offset o further in h o (omega (arith, gt)) (omega arith)
    | inr here ↦
        let same : offset ≡ o = omega (arith, le_of_ltb offset o here) in
        subst (λ k. IsEmptyAt q ((idx + k) % length q.shards)) same f
  ]

  steal_loop-Stolen :
      (remaining idx offset : ℕ) (q : ShardedMpmcQueue ch)
      → 0 < length q.shards
      → Stolen remaining idx offset q (steal_loop ch remaining idx offset q)
  unfolding steal_loop
  steal_loop-Stolen zero idx offset q h = λ o le lt. absurd (omega arith)
  steal_loop-Stolen (suc remaining) idx offset q h =
      probe remaining idx offset q (pop_from ch q ((idx + offset) % length q.shards))
        (steal_loop ch remaining idx (offset + 1) q)
        (pop_from-Found q ((idx + offset) % length q.shards) (mod-lt (idx + offset) h))
        (steal_loop-Stolen remaining idx (offset + 1) q h)

  abbrev pub PopOutcome : ShardedMpmcQueue ch → Option (A × ShardedMpmcQueue ch) → Type 0
  PopOutcome q none = (i : ℕ) → IsEmptyAt q i
  PopOutcome q (some (item, r)) = (i : ℕ) × TookAt q i item r

  settle :
      (idx n : ℕ) (q : ShardedMpmcQueue ch) (found : Option (A × ShardedMpmcQueue ch))
      → n ≡ length q.shards
      → idx < n
      → Stolen n idx 0 q found
      → PopOutcome q found
  settle idx n q (some (item, r)) e h v = v
  settle idx n q none e h v = λ i s there.
      let (o, small, meets) =
        round_meets n idx i h (subst (λ k. i < k) (sym e) (lt_of_get_elem? q.shards i s there)) in
      v o (omega arith) (omega (arith, small)) s (
        ap (λ k. get_elem? q.shards ((idx + o) % k)) (sym e)
        ∙ ap (get_elem? q.shards) meets
        ∙ there)

  -- A worker that pops or steals gets the first item of some shard, which loses just that item, or
  -- nothing, and then every shard is empty.
  pub pop_or_steal-outcome :
      (q : ShardedMpmcQueue ch) (idx : ℕ)
      → idx < length q.shards
      → PopOutcome q (pop_or_steal ch q idx)
  unfolding pop_or_steal
  pop_or_steal-outcome q idx h =
      let n = length q.shards in
      let own : (idx + 0) % n ≡ idx =
        ap (λ k. k % n) (let z : idx + 0 ≡ idx = omega arith in z) ∙ mod-eq_of_lt h in
      let count : suc (n - 1) ≡ n = omega (arith, h) in
      settle idx n q (pop_or_steal ch q idx) refl h (
        subst (λ k. Stolen k idx 0 q (pop_or_steal ch q idx)) count
          (probe (n - 1) idx 0 q (pop_from ch q idx) (steal_loop ch (n - 1) idx 1 q)
            (subst (λ k. Found q k (pop_from ch q idx)) (sym own) (pop_from-Found q idx h))
            (steal_loop-Stolen (n - 1) idx 1 q (omega (arith, h)))))
