-- ===== src/Core/Timers.antt =====
-- crates/riftgate-core/src/timers.rs: BinaryHeapTimers, and the wrapper DeterministicTimers.
mod Tests
pub mod Live
pub mod Firing
pub mod Keeping
pub mod Steps
pub mod Reference
use riftgate.Base.{
  ℕ, zero, suc, ◌+◌, ◌%◌, ◌^◌, Bool, true, false, ◌&&◌, ◌||◌, not, Option, none, some, List, [],
  ◌∷◌, ltb, leb, ◌==◌, if◌then◌else◌, length,
}

-- A deadline and the id of its timer.
abbrev pub Entry : Type 0
Entry = ℕ × ℕ

-- The order of the tuples.
abbrev pub entry_le : Entry → Entry → Bool
entry_le (d, i) (e, j) = ltb d e || (d == e && leb i j)

-- A binary heap as the list of its entries in the order in which they are popped; the callbacks as
-- an association list; the cancelled ids as a list that is asked for membership. The `f32` factor
-- of the compaction stands in the parameter `threshold` below.
pub record BinaryHeapTimers {ℓ} (A : Type ℓ) : Type ℓ where
  pub heap : List Entry
  pub callbacks : List (ℕ × A)
  pub cancelled : List ℕ
  pub next_id : ℕ

pub new {ℓ} : {A : Type ℓ} → BinaryHeapTimers A
new = record { heap = []; callbacks = []; cancelled = []; next_id = 1 }

abbrev pub contains : List ℕ → ℕ → Bool
contains [] i = false
contains (j ∷ js) i = j == i || contains js i

abbrev pub remove : List ℕ → ℕ → List ℕ
remove [] i = []
remove (j ∷ js) i = if j == i then remove js i else j ∷ remove js i

-- `BinaryHeap::push`.
pub push : Entry → List Entry → List Entry
push e [] = e ∷ []
push e (x ∷ xs) = if entry_le e x then e ∷ x ∷ xs else x ∷ push e xs

-- `callbacks.get`, and `callbacks.remove`.
abbrev pub find {ℓ} : {A : Type ℓ} → List (ℕ × A) → ℕ → Option A
find [] i = none
find ((j, f) ∷ rest) i = if j == i then some f else find rest i

abbrev pub erase {ℓ} : {A : Type ℓ} → List (ℕ × A) → ℕ → List (ℕ × A)
erase [] i = []
erase ((j, f) ∷ rest) i = if j == i then erase rest i else (j, f) ∷ erase rest i

-- The entries that the loop of `compact` keeps.
abbrev pub kept : List ℕ → List Entry → List Entry
kept cancelled [] = []
kept cancelled (e ∷ es) =
    if contains cancelled e.1 then kept cancelled es else e ∷ kept cancelled es

abbrev u64_mod : ℕ
u64_mod = 2 ^ 64

-- What `tick` leaves, with the callbacks that it called, in order.
pub record Ticked {ℓ} (A : Type ℓ) : Type ℓ where
  pub heap : List Entry
  pub callbacks : List (ℕ × A)
  pub cancelled : List ℕ
  pub fired : List A

-- A cancelled entry is skipped, and so is one without a callback; else the callback is called.
abbrev pub called {ℓ} : {A : Type ℓ} → Bool → Option A → List A → List A
called true o fs = fs
called false none fs = fs
called false (some f) fs = f ∷ fs

-- The loop of `tick`: the heap shrinks in each round.
pub tick_loop {ℓ} : {A : Type ℓ} → ℕ → List Entry → List (ℕ × A) → List ℕ → Ticked A
tick_loop now [] callbacks cancelled = record {
  heap = [];
  callbacks = callbacks;
  cancelled = cancelled;
  fired = [];
}
tick_loop now ((deadline, id) ∷ heap) callbacks cancelled =
    let later =
      tick_loop now heap (if contains cancelled id then callbacks else erase callbacks id)
        (remove cancelled id) in
    if ltb now deadline
    then record {
      heap = (deadline, id) ∷ heap;
      callbacks = callbacks;
      cancelled = cancelled;
      fired = [];
    }
    else record later { fired = called (contains cancelled id) (find callbacks id) later.fired }

-- The deadline of the first entry that is not cancelled, in the order of the iteration over the
-- heap, which is not the order of the deadlines.
pub next_deadline : List Entry → List ℕ → Option ℕ
next_deadline [] cancelled = none
next_deadline ((deadline, id) ∷ entries) cancelled =
    if contains cancelled id then next_deadline entries cancelled else some deadline

abbrev pub is_empty : List Entry → Bool
is_empty [] = true
is_empty (e ∷ es) = false

module _ {ℓ} {A : Type ℓ} where
  pub schedule : BinaryHeapTimers A → ℕ → A → BinaryHeapTimers A × ℕ
  unfolding push
  schedule t deadline on_fire = (
    record {
      heap = push (deadline, t.next_id) t.heap;
      callbacks = (t.next_id, on_fire) ∷ t.callbacks;
      cancelled = t.cancelled;
      next_id = (t.next_id + 1) % u64_mod;
    },
    t.next_id,
  )

  pub tick : BinaryHeapTimers A → ℕ → BinaryHeapTimers A × List A
  unfolding tick_loop
  tick t now =
      let r = tick_loop now t.heap t.callbacks t.cancelled in
      (record t { heap = r.heap; callbacks = r.callbacks; cancelled = r.cancelled }, r.fired)

  pub len : BinaryHeapTimers A → ℕ
  len t = length t.callbacks

  pub cancelled_pending : BinaryHeapTimers A → ℕ
  cancelled_pending t = length t.cancelled

  pub compact : BinaryHeapTimers A → BinaryHeapTimers A
  compact t = record t { heap = kept t.cancelled t.heap; cancelled = [] }

  -- `(live as f32 * compaction_ratio) as usize` is a parameter.
  module _ (threshold : ℕ → ℕ) where
    pub maybe_compact : BinaryHeapTimers A → BinaryHeapTimers A
    unfolding compact
    maybe_compact t =
        if is_empty t.heap
        then t
        else if ltb (threshold (length t.heap)) (length t.cancelled)
        then compact t
        else t

    pub cancel : BinaryHeapTimers A → ℕ → BinaryHeapTimers A × Bool
    unfolding maybe_compact
    cancel t handle = elim (find t.callbacks handle) [
      | none ↦ (t, false)
      | some f ↦ (
        maybe_compact
            (record t { callbacks = erase t.callbacks handle; cancelled = handle ∷ t.cancelled }),
        true,
      )
    ]

-- `DeterministicTimers`: the same, with the last tick remembered.
pub record DeterministicTimers {ℓ} (A : Type ℓ) : Type ℓ where
  pub inner : BinaryHeapTimers A
  pub last_tick : Option ℕ

pub deterministic_tick {ℓ} :
    {A : Type ℓ} → DeterministicTimers A → ℕ → DeterministicTimers A × List A
unfolding tick
deterministic_tick t now =
    let (inner, fired) = tick t.inner now in (record { inner = inner; last_tick = some now }, fired)
