-- ===== src/Core/Timers/Steps.antt =====
-- What each operation does to the live timers.
use riftgate.Base.{
  ℕ, ◌+◌, ◌<◌, ◌%◌, ◌^◌, ◌≡◌, refl, sym, ◌∙◌, ap, subst, Bool, true, false, ◌||◌, Option, none,
  some, List, [], ◌∷◌, ltb, ◌==◌, ==_refl, ==_iff, if◌then◌else◌, length, arith, Bool-cases,
  Option-cases, inl, inr,
}
use riftgate.Core.Timers.{
  Entry, BinaryHeapTimers, contains, push, find, erase, schedule, tick, maybe_compact, compact,
  cancel, is_empty,
}
use riftgate.Core.Timers.Live.{
  AllBelow, Timer, seen, live, live_has, without, insert_timer, live-add, live-kept, live-cancel,
  live-push,
}
use riftgate.Core.Timers.Firing.{due, later, tick_loop-live}
use riftgate.Core.Timers.Keeping.{
  Keeps, tick_loop-Keeps, push-All, push-Ordered, kept-All, kept-Ordered, IdsBelow-weaken,
  AllBelow-weaken, AllBelow-Avoids, IdsBelow-contains, erased_ne,
}

if_any {ℓ κ} :
    {B : Type ℓ} (P : B → Type κ) (b : Bool) (x y : B) → P x → P y → P (if b then x else y)
if_any P true x y p q = p
if_any P false x y p q = q

module _ {ℓ} {A : Type ℓ} where
  live_has-insert_timer :
      (j : ℕ) (e : Entry) (f : A) (ts : List (Timer A))
      → live_has j (insert_timer (e, f) ts) ≡ (e.1 == j || live_has j ts)
  live_has-insert_timer j e f [] = refl
  live_has-insert_timer j e f ((x, g) ∷ ts) = ground (arith, live_has-insert_timer j e f ts)

  live_has-without :
      (id j : ℕ) (ts : List (Timer A))
      → (id == j) ≡ false
      → live_has j (without id ts) ≡ live_has j ts
  live_has-without id j [] h = refl
  live_has-without id j ((x, g) ∷ ts) h = ground (arith, h, live_has-without id j ts h)

  without_absent : (id : ℕ) (ts : List (Timer A)) → live_has id ts ≡ false → without id ts ≡ ts
  without_absent id [] h = refl
  without_absent id ((x, g) ∷ ts) h = ground (arith, h, without_absent id ts)

  live_has-seen_lost :
      (id : ℕ) (e : Entry) (b : Bool) (o : Option A) (ts : List (Timer A))
      → ((e.1 == id) ≡ true → o ≡ none)
      → live_has id ts ≡ false
      → live_has id (seen e b o ts) ≡ false
  live_has-seen_lost id e true o ts h g = g
  live_has-seen_lost id e false none ts h g = g
  live_has-seen_lost id e false (some f) ts h g = elim (Bool-cases (e.1 == id)) [
    | inl same ↦ cc (h same)
    | inr other ↦ rw other g
  ]

  live_has-lost :
      (id : ℕ) (es : List Entry) (c : List ℕ) (k : List (ℕ × A))
      → find k id ≡ none
      → live_has id (live es c k) ≡ false
  unfolding live
  live_has-lost id [] c k h = refl
  live_has-lost id (e ∷ es) c k h =
      live_has-seen_lost id e (contains c e.1) (find k e.1) (live es c k)
        (λ same. subst (λ n. find k n ≡ none) (sym ((==_iff e.1 id).0 same)) h)
        (live_has-lost id es c k h)

  abbrev pub view : BinaryHeapTimers A → List (Timer A)
  view t = live t.heap t.cancelled t.callbacks

  abbrev pub IsWell : BinaryHeapTimers A → Type ℓ
  IsWell t = Keeps t.next_id t.heap t.cancelled t.callbacks

  pub schedule-plan :
      (t : BinaryHeapTimers A) (deadline : ℕ) (f : A)
      → IsWell t
      → t.next_id + 1 < 2 ^ 64
      → let (u, id) = schedule t deadline f in
        IsWell u
        × (view u ≡ insert_timer ((deadline, t.next_id), f) (view t))
        × (u.next_id ≡ t.next_id + 1)
        × (id ≡ t.next_id)
  unfolding schedule
  schedule-plan t deadline f (ordered, below, ids, covered) room =
      let e : Entry = (deadline, t.next_id) in
      let up : (t.next_id + 1) % (2 ^ 64) ≡ t.next_id + 1 = omega (arith, room) in
      let k = (t.next_id, f) ∷ t.callbacks in
      let fresh = AllBelow-Avoids t.next_id t.heap below in
      let first : find k t.next_id ≡ some f = rw (==_refl t.next_id) refl in
      let seen_now : live (push e t.heap) t.cancelled k ≡ insert_timer (e, f) (view t) =
        live-push e f t.heap t.cancelled k ordered (IdsBelow-contains t.next_id t.cancelled ids)
          first
        ∙ ap (insert_timer (e, f)) (live-add t.heap t.cancelled t.callbacks t.next_id f fresh) in
      (
        rw up (
          push-Ordered e t.heap below ordered,
          push-All (λ (x : Entry). x.1 < t.next_id + 1) e t.heap (omega arith)
              (AllBelow-weaken t.next_id (t.next_id + 1) t.heap (omega arith) below),
          IdsBelow-weaken t.next_id (t.next_id + 1) t.cancelled (omega arith) ids,
          λ j g found.
              ap (live_has j) seen_now
              ∙ live_has-insert_timer j e f (view t)
              ∙ (elim (Bool-cases (t.next_id == j)) [
                | inl same ↦ rw same refl
                | inr other ↦ rw other (covered j g (rw other at found))
              ]),
        ),
        seen_now,
        up,
        refl,
      )

  live_has-seen_cases :
      (n id : ℕ) (e : Entry) (b : Bool) (o : Option A) (ts : List (Timer A))
      → e.1 < n
      → (live_has id ts ≡ true → id < n)
      → live_has id (seen e b o ts) ≡ true
      → id < n
  live_has-seen_cases n id e true o ts small rest h = rest h
  live_has-seen_cases n id e false none ts small rest h = rest h
  live_has-seen_cases n id e false (some f) ts small rest h = elim (Bool-cases (e.1 == id)) [
    | inl same ↦ subst (λ i. i < n) ((==_iff e.1 id).0 same) small
    | inr other ↦ rest (rw other at h)
  ]

  live_has-lt :
      (n id : ℕ) (es : List Entry) (c : List ℕ) (k : List (ℕ × A))
      → AllBelow n es
      → live_has id (live es c k) ≡ true
      → id < n
  unfolding live
  live_has-lt n id [] c k v h = cc h
  live_has-lt n id (e ∷ es) c k (small, v) h =
      live_has-seen_cases n id e (contains c e.1) (find k e.1) (live es c k) small
        (live_has-lt n id es c k v) h

  compact-plan :
      (t : BinaryHeapTimers A)
      → IsWell t
      → IsWell (compact t) × (view (compact t) ≡ view t) × ((compact t).next_id ≡ t.next_id)
  unfolding compact
  compact-plan t (ordered, below, ids, covered) =
      let same = live-kept t.heap t.cancelled t.callbacks in
      (
        (
          kept-Ordered t.cancelled t.heap ordered,
          kept-All (λ (x : Entry). x.1 < t.next_id) t.cancelled t.heap below,
          tt,
          λ j g found. ap (live_has j) same ∙ covered j g found,
        ),
        same,
        refl,
      )

  pub tick-plan :
      (t : BinaryHeapTimers A) (now : ℕ)
      → IsWell t
      → let (u, fs) = tick t now in
        IsWell u × (view u ≡ later now (view t)) × (u.next_id ≡ t.next_id) × (fs ≡ due now (view t))
  unfolding tick
  tick-plan t now well =
      let (fs, rest) = tick_loop-live now t.heap t.cancelled t.callbacks well.0 in
      (tick_loop-Keeps t.next_id now t.heap t.cancelled t.callbacks well, rest, refl, fs)

  -- What `cancel` gives, against the live timers before it.
  abbrev pub IsCancelled : BinaryHeapTimers A → ℕ → BinaryHeapTimers A × Bool → Type ℓ
  IsCancelled t id (u, found) =
      IsWell u
      × (view u ≡ without id (view t))
      × (u.next_id ≡ t.next_id)
      × (found ≡ live_has id (view t))

  module _ (threshold : ℕ → ℕ) where
    cancel_lost :
        (t : BinaryHeapTimers A) (id : ℕ)
        → find t.callbacks id ≡ none
        → cancel threshold t id ≡ (t, false)
    unfolding cancel
    cancel_lost t id e = rw (cancel, e) refl

    cancel_found :
        (t : BinaryHeapTimers A) (id : ℕ) (f : A)
        → find t.callbacks id ≡ some f
        → cancel threshold t id ≡ (
          maybe_compact threshold
              (record t { callbacks = erase t.callbacks id; cancelled = id ∷ t.cancelled }),
          true,
        )
    unfolding cancel
    cancel_found t id f e = rw (cancel, e) refl

    maybe_compact-any :
        (P : BinaryHeapTimers A → Type ℓ) (t : BinaryHeapTimers A)
        → P t
        → P (compact t)
        → P (maybe_compact threshold t)
    unfolding maybe_compact
    maybe_compact-any P t as_is compacted =
        if_any P (is_empty t.heap) t
          (if ltb (threshold (length t.heap)) (length t.cancelled) then compact t else t) as_is
          (if_any P (ltb (threshold (length t.heap)) (length t.cancelled)) (compact t) t compacted
            as_is)

    pub cancel-plan :
        (t : BinaryHeapTimers A) (id : ℕ) → IsWell t → IsCancelled t id (cancel threshold t id)
    cancel-plan t id (ordered, below, ids, covered) = elim (Option-cases (find t.callbacks id)) [
      | inl lost ↦
          let absent = live_has-lost id t.heap t.cancelled t.callbacks lost in
          subst (IsCancelled t id) (sym (cancel_lost t id lost)) (
            (ordered, below, ids, covered),
            sym (without_absent id (view t) absent),
            refl,
            sym absent,
          )
      | inr (f, found) ↦
          let v : BinaryHeapTimers A = record t {
            callbacks = erase t.callbacks id;
            cancelled = id ∷ t.cancelled;
          } in
          let same = live-cancel t.heap t.cancelled t.callbacks id in
          let there = covered id f found in
          let well : IsWell v = (
            ordered,
            below,
            (live_has-lt t.next_id id t.heap t.cancelled t.callbacks below there, ids),
            λ j g kept_one.
                let (other, still) = erased_ne t.callbacks id j g kept_one in
                ap (live_has j) same ∙ live_has-without id j (view t) other ∙ covered j g still,
          ) in
          let (small, same_view, same_next) = compact-plan v well in
          let (well_u, view_u, next_u) =
            maybe_compact-any
              (λ u. IsWell u × (view u ≡ without id (view t)) × (u.next_id ≡ t.next_id)) v
              (well, same, refl) (small, same_view ∙ same, same_next) in
          subst (IsCancelled t id) (sym (cancel_found t id f found))
            (well_u, view_u, next_u, sym there)
    ]
