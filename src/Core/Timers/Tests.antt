-- ===== src/Core/Timers/Tests.antt =====
-- Three timers, of which one is cancelled.
use riftgate.Base.{ℕ, ◌≡◌, refl, some, List, [], ◌∷◌, arith}
use riftgate.Core.Timers.{new, next_deadline}
use riftgate.Core.Timers.Reference.{
  Op, scheduling, cancelling, ticking, replies, replies_plan, replies-plan,
}

abbrev ops : List (Op ℕ)
ops = scheduling 30 7 ∷ scheduling 20 8 ∷ scheduling 10 9 ∷ cancelling 2 ∷ ticking 25 ∷ []

replies-plan_example :
    replies (λ n. n) new ops ≡ replies_plan (record { timers = []; next_handle = 1 }) ops
replies-plan_example = replies-plan (λ n. n) ops (omega arith)

-- A heap may hold its entries in this order: 10 is cancelled, and the answer is not the next deadline.
next_deadline-unordered : next_deadline ((10, 1) ∷ (30, 2) ∷ (20, 3) ∷ []) (1 ∷ []) ≡ some 30
unfolding next_deadline
next_deadline-unordered = refl
