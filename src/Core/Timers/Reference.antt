-- ===== src/Core/Timers/Reference.antt =====
-- The timers against the plain list of the live ones.
use riftgate.Base.{ℕ, ◌+◌, ◌<◌, ◌≤◌, ◌^◌, ◌≡◌, refl, ◌∙◌, ap, Bool, List, [], ◌∷◌, length, arith}
use riftgate.Core.Timers.{BinaryHeapTimers, new, schedule, tick, cancel}
use riftgate.Core.Timers.Live.{Timer, live, live_has, without, insert_timer}
use riftgate.Core.Timers.Firing.{due, later}
use riftgate.Core.Timers.Steps.{view, IsWell, schedule-plan, tick-plan, cancel-plan}

pub data Op {ℓ} (A : Type ℓ) : Type ℓ where
  scheduling : ℕ → A → Op A
  cancelling : ℕ → Op A
  ticking : ℕ → Op A

-- What an operation gives back, or calls.
pub data Reply {ℓ} (A : Type ℓ) : Type ℓ where
  handle : ℕ → Reply A
  was_live : Bool → Reply A
  fired : List A → Reply A

-- The live timers, in the order of their deadlines, and the next handle.
pub record Plan {ℓ} (A : Type ℓ) : Type ℓ where
  pub timers : List (Timer A)
  pub next_handle : ℕ

module _ {ℓ} {A : Type ℓ} where
  abbrev pub reply_plan : Plan A → Op A → Plan A × Reply A
  reply_plan p (scheduling deadline f) = (
    record {
      timers = insert_timer ((deadline, p.next_handle), f) p.timers;
      next_handle = p.next_handle + 1;
    },
    handle p.next_handle,
  )
  reply_plan p (cancelling id) =
      (record p { timers = without id p.timers }, was_live (live_has id p.timers))
  reply_plan p (ticking now) = (record p { timers = later now p.timers }, fired (due now p.timers))

  abbrev pub replies_plan : Plan A → List (Op A) → List (Reply A)
  replies_plan p [] = []
  replies_plan p (op ∷ ops) = let (q, r) = reply_plan p op in r ∷ replies_plan q ops

  reply_plan-next : (p : Plan A) (op : Op A) → (reply_plan p op).0.next_handle ≤ p.next_handle + 1
  reply_plan-next p (scheduling deadline f) = omega arith
  reply_plan-next p (cancelling id) = omega arith
  reply_plan-next p (ticking now) = omega arith

  module _ (threshold : ℕ → ℕ) where
    pub step : BinaryHeapTimers A → Op A → BinaryHeapTimers A × Reply A
    step t (scheduling deadline f) = let (u, id) = schedule t deadline f in (u, handle id)
    step t (cancelling id) = let (u, found) = cancel threshold t id in (u, was_live found)
    step t (ticking now) = let (u, fs) = tick t now in (u, fired fs)

    pub replies : BinaryHeapTimers A → List (Op A) → List (Reply A)
    unfolding step
    replies t [] = []
    replies t (op ∷ ops) = let (u, r) = step t op in r ∷ replies u ops

    abbrev IsPlanned : Plan A × Reply A → BinaryHeapTimers A × Reply A → Type ℓ
    IsPlanned (q, reply) (u, r) =
        IsWell u × (view u ≡ q.timers) × (u.next_id ≡ q.next_handle) × (r ≡ reply)

    abbrev plan_of : BinaryHeapTimers A → Plan A
    plan_of t = record { timers = view t; next_handle = t.next_id }

    step-plan :
        (t : BinaryHeapTimers A) (op : Op A)
        → IsWell t
        → t.next_id + 1 < 2 ^ 64
        → IsPlanned (reply_plan (plan_of t) op) (step t op)
    unfolding step
    step-plan t (scheduling deadline f) well room =
        let (w, v, n, h) = schedule-plan t deadline f well room in (w, v, n, ap handle h)
    step-plan t (cancelling id) well room =
        let (w, v, n, h) = cancel-plan threshold t id well in (w, v, n, ap was_live h)
    step-plan t (ticking now) well room =
        let (w, v, n, h) = tick-plan t now well in (w, v, n, ap fired h)

    plan_of-eq :
        (u : BinaryHeapTimers A) (q : Plan A)
        → view u ≡ q.timers
        → u.next_id ≡ q.next_handle
        → plan_of u ≡ q
    plan_of-eq u q v n = cc (v, n)

    replies-plan_of :
        (ops : List (Op A)) (t : BinaryHeapTimers A)
        → IsWell t
        → t.next_id + length ops < 2 ^ 64
        → replies t ops ≡ replies_plan (plan_of t) ops
    unfolding replies
    replies-plan_of [] t well room = refl
    replies-plan_of (op ∷ ops) t well room =
        let (q, reply) = reply_plan (plan_of t) op in
        let (w, v, n, r) = step-plan t op well (omega (arith, room)) in
        let small = reply_plan-next (plan_of t) op in
        let same = plan_of-eq (step t op).0 q v n in
        let more = replies-plan_of ops (step t op).0 w (omega (arith, room, n, small)) in
        rw r (ap (λ rs. reply ∷ rs) (more ∙ ap (λ p. replies_plan p ops) same))

    -- Timers that are scheduled, cancelled and ticked in any order, however often the heap is
    -- compacted, answer as the plain list of the live timers in the order of their deadlines does:
    -- a tick calls exactly the callbacks whose deadline is reached, in that order and each once, and
    -- a cancellation says whether its timer was still live. The handles do not wrap around: there are
    -- fewer than 2^64 - 1 operations.
    pub replies-plan :
        (ops : List (Op A))
        → 1 + length ops < 2 ^ 64
        → replies new ops ≡ replies_plan (record { timers = []; next_handle = 1 }) ops
    unfolding new live
    replies-plan ops room = replies-plan_of ops new (tt, tt, tt, λ j f e. cc e) room
