-- ===== src/Scheduler/Tests.antt =====
-- A channel that is a list, and a queue of two shards of one place.
use riftgate.Base.{
  ℕ, ◌≡◌, refl, true, Option, none, some, List, [], ◌∷◌, ◌++◌, length, ltb, lt→ltb, ltb-eq-false,
  if◌then◌else◌, arith,
}
use riftgate.Scheduler.{Channel, IsFifo, ShardedMpmcQueue, push, pop_or_steal, worker_loop}
use riftgate.Scheduler.Pushing.{PushOutcome, push-outcome}
use riftgate.Scheduler.Popping.{PopOutcome, pop_or_steal-outcome}
use riftgate.Scheduler.Draining.{IsDrained, worker_loop-IsDrained}

abbrev send : List ℕ × ℕ → ℕ → Option (List ℕ × ℕ)
send (xs, n) x = if ltb (length xs) n then some (xs ++ x ∷ [], n) else none

abbrev recv : List ℕ × ℕ → Option (ℕ × (List ℕ × ℕ))
recv ([], n) = none
recv (x ∷ xs, n) = some (x, (xs, n))

abbrev listed : Channel ℕ
listed = record {
  State = List ℕ × ℕ;
  bounded = λ n. ([], n);
  try_send = send;
  try_recv = recv;
  len = λ (s : List ℕ × ℕ). length s.0;
}

recv_nil : (s : List ℕ × ℕ) → s.0 ≡ [] → recv s ≡ none
recv_nil ([], n) e = refl
recv_nil (x ∷ xs, n) e = cc e

recv_cons :
    (s : List ℕ × ℕ) (x : ℕ) (xs : List ℕ)
    → s.0 ≡ x ∷ xs
    → (t : List ℕ × ℕ) × (recv s ≡ some (x, t)) × (t.0 ≡ xs) × (t.1 ≡ s.1)
recv_cons ([], n) x xs e = cc e
recv_cons (y ∷ ys, n) x xs e =
    let same : y ≡ x = cc e in let rest : ys ≡ xs = cc e in ((ys, n), rw same refl, rest, refl)

listed-IsFifo : IsFifo listed
listed-IsFifo = record {
  items = λ (s : List ℕ × ℕ). s.0;
  capacity = λ (s : List ℕ × ℕ). s.1;
  bounded_items = λ n. refl;
  bounded_capacity = λ n. refl;
  send_room = λ s x h. ((s.0 ++ x ∷ [], s.1), rw (lt→ltb _ _ h) refl, refl, refl);
  send_full = λ s x h. rw (ltb-eq-false (length s.0) s.1 h) refl;
  recv_empty = recv_nil;
  recv_first = recv_cons;
  len_items = λ s. refl;
}

abbrev queue : ShardedMpmcQueue listed
queue = record { shards = ([], 1) ∷ (4 ∷ [], 1) ∷ []; cursor = 1 }

push-outcome_example : PushOutcome listed listed-IsFifo queue 5 (push listed queue 5)
push-outcome_example = push-outcome listed listed-IsFifo queue 5 (omega arith)

-- The cursor points at the full shard, and the item goes to the other.
push-other : (push listed queue 5).0.shards ≡ (5 ∷ [], 1) ∷ (4 ∷ [], 1) ∷ []
unfolding push
push-other = refl

pop_or_steal-outcome_example : PopOutcome listed listed-IsFifo queue (pop_or_steal listed queue 0)
pop_or_steal-outcome_example = pop_or_steal-outcome listed listed-IsFifo queue 0 (omega arith)

worker_loop-IsDrained_example :
    IsDrained listed listed-IsFifo 1 (4 ∷ []) (worker_loop listed 2 1 true queue)
unfolding listed-IsFifo
worker_loop-IsDrained_example =
    worker_loop-IsDrained listed listed-IsFifo 2 1 queue (4 ∷ [], 1) refl (omega arith)
