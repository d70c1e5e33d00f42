-- ===== src/Scheduler/Draining.antt =====
-- The end of a worker.
use riftgate.Base.{
  ℕ, zero, suc, ◌<◌, ◌≡◌, refl, sym, ◌∙◌, ap, subst, inl, inr, Bool, true, none, some, List, [],
  ◌∷◌, length, get_elem?, get_elem?-set_self, lt_of_get_elem?, set, arith,
}
use riftgate.Scheduler.{Channel, IsFifo, ShardedMpmcQueue, pop_from, drain_loop, worker_loop}
use riftgate.Scheduler.Popping.{List-cases, pop_from_empty, pop_from_first}

module _ {A : Type 0} (ch : Channel A) (fifo : IsFifo ch) where
  -- All the tasks ran in their order, the loop ended, and the shard is empty.
  abbrev pub IsDrained : ℕ → List A → List A × (ShardedMpmcQueue ch × Bool) → Type 0
  IsDrained idx tasks (ran, (q, ended)) =
      (ran ≡ tasks)
      × (ended ≡ true)
      × ((t : ch.State) × (get_elem? q.shards idx ≡ some t) × (fifo.items t ≡ []))

  drain_loop_end :
      (fuel idx : ℕ) (q : ShardedMpmcQueue ch)
      → pop_from ch q idx ≡ none
      → drain_loop ch (suc fuel) idx q ≡ ([], (q, true))
  unfolding drain_loop
  drain_loop_end fuel idx q e = rw (drain_loop, e) refl

  worker_loop_end :
      (fuel idx : ℕ) (q : ShardedMpmcQueue ch)
      → pop_from ch q idx ≡ none
      → worker_loop ch (suc fuel) idx true q ≡ ([], (q, true))
  unfolding worker_loop
  worker_loop_end fuel idx q e = rw (worker_loop, e) (drain_loop_end fuel idx q e)

  worker_loop_task :
      (fuel idx : ℕ) (shutdown : Bool) (q r : ShardedMpmcQueue ch) (task : A)
      → pop_from ch q idx ≡ some (task, r)
      → worker_loop ch (suc fuel) idx shutdown q
        ≡ (let (ran, end) = worker_loop ch fuel idx shutdown r in (task ∷ ran, end))
  unfolding worker_loop
  worker_loop_task fuel idx shutdown q r task e = rw (worker_loop, e) refl

  -- After a shutdown a worker whose shard gets no more tasks runs all that are there, in the order in
  -- which they came, and ends: one round more than there are tasks is enough.
  pub worker_loop-IsDrained :
      (fuel idx : ℕ) (q : ShardedMpmcQueue ch) (s : ch.State)
      → get_elem? q.shards idx ≡ some s
      → length (fifo.items s) < fuel
      → IsDrained idx (fifo.items s) (worker_loop ch fuel idx true q)
  worker_loop-IsDrained zero idx q s there h = absurd (omega (arith, h))
  worker_loop-IsDrained (suc fuel) idx q s there h = elim (List-cases (fifo.items s)) [
    | inl empty ↦
        subst (IsDrained idx (fifo.items s))
          (sym (worker_loop_end fuel idx q (pop_from_empty ch fifo q idx s there empty)))
          (sym empty, refl, (s, there, empty))
    | inr (x, xs, first) ↦
        let (t, got, rest) = pop_from_first ch fifo q idx s x xs there first in
        let r : ShardedMpmcQueue ch = record q { shards = set q.shards idx t } in
        let found = get_elem?-set_self q.shards idx t (lt_of_get_elem? q.shards idx s there) in
        let fewer : length (fifo.items t) < fuel =
          let a = ap length first in let b = ap length rest in omega (arith, h, a, b) in
        let (ran, ended, last) = worker_loop-IsDrained fuel idx r t found fewer in
        subst (IsDrained idx (fifo.items s)) (sym (worker_loop_task fuel idx true q r x got))
          (ap (◌∷◌ x) (ran ∙ rest) ∙ sym first, ended, last)
  ]
