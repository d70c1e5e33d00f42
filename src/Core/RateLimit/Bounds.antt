-- ===== src/Core/RateLimit/Bounds.antt =====
-- The bucket never holds more than its burst, whatever other threads do.
use riftgate.Base.{
  ℕ, ◌<◌, ◌≡◌, arith, Option, none, some, List, [], ◌∷◌, Bool, true, false, All, put-All,
  Option-cases, inl, inr,
}
use riftgate.Core.RateLimit.{
  SubjectKey, SubjectKey-discrete, TokenBucketConfig, TokenBucketLimiter, LimitDecision, allow,
  deny, u32_mod, attempt, check_loop, compare_exchange, finish, full_state, entry_word, check,
  now_ms, new, overwritten,
}
use riftgate.Core.RateLimit.Words.{IsWord, attempt-IsWord, pack-IsWord}

abbrev pub OtherIsWord : TokenBucketConfig → Option ℕ → Type 0
OtherIsWord cfg none = Unit
OtherIsWord cfg (some w) = IsWord cfg w

pub overwritten-IsWord :
    (cfg : TokenBucketConfig) (word : ℕ) (other : Option ℕ)
    → IsWord cfg word
    → OtherIsWord cfg other
    → IsWord cfg (overwritten word other)
overwritten-IsWord cfg word none v o = v
overwritten-IsWord cfg word (some w) v o = o

compare_exchange-IsWord :
    (cfg : TokenBucketConfig) (current observed new_word : ℕ)
    → IsWord cfg current
    → IsWord cfg new_word
    → IsWord cfg (compare_exchange current observed new_word).0
unfolding compare_exchange
compare_exchange-IsWord cfg current observed new_word v w = ground arith

finish-IsWord :
    (cfg : TokenBucketConfig) (decision : LimitDecision) (written : ℕ × Bool)
    (retry : ℕ → LimitDecision × ℕ)
    → IsWord cfg written.0
    → ((w : ℕ) → IsWord cfg w → IsWord cfg (retry w).1)
    → IsWord cfg (finish decision written retry).1
unfolding finish
finish-IsWord cfg (deny wait) (word, b) retry v keep = v
finish-IsWord cfg allow (word, true) retry v keep = v
finish-IsWord cfg allow (word, false) retry v keep = keep word v

-- Whatever words within the burst the other threads store, the word that the loop leaves is within
-- the burst.
pub check_loop-IsWord :
    (cfg : TokenBucketConfig) (now cost : ℕ) (others : List (Option ℕ)) (word : ℕ)
    → now < u32_mod
    → IsWord cfg word
    → All (OtherIsWord cfg) others
    → IsWord cfg (check_loop cfg now cost others word).1
unfolding check_loop
check_loop-IsWord cfg now cost [] word h v o =
    finish-IsWord cfg (attempt cfg now cost word).0 _ _
      (compare_exchange-IsWord cfg word word _ v (attempt-IsWord cfg now cost word h)) (λ w k. k)
check_loop-IsWord cfg now cost (other ∷ rest) word h v o =
    finish-IsWord cfg (attempt cfg now cost word).0 _ _
      (compare_exchange-IsWord cfg (overwritten word other) word _
        (overwritten-IsWord cfg word other v o.0) (attempt-IsWord cfg now cost word h))
      (λ w k. check_loop-IsWord cfg now cost rest w h k o.1)

-- Every stored word of a limiter is within the burst.
pub record IsValid (limiter : TokenBucketLimiter) : Type 0 where
  pub words :
      (subject : SubjectKey) (word : ℕ)
      → limiter.state subject ≡ some word
      → IsWord limiter.cfg word

pub entry_word-IsWord :
    (limiter : TokenBucketLimiter) (subject : SubjectKey) (now : ℕ)
    → now < u32_mod
    → IsValid limiter
    → IsWord limiter.cfg (entry_word limiter subject now)
unfolding entry_word full_state
entry_word-IsWord limiter subject now h v = elim (Option-cases (limiter.state subject)) [
  | inl e ↦ rw (e, entry_word) (pack-IsWord limiter.cfg _ now h (omega arith))
  | inr (word, e) ↦ rw (e, entry_word) (v.words subject word e)
]

pub now_ms-lt : (elapsed : ℕ) → now_ms elapsed < u32_mod
unfolding now_ms
now_ms-lt elapsed = omega arith

-- A check keeps every subject's word within the burst, at any clock and cost and against any
-- interference by words within the burst.
pub check-IsValid :
    (limiter : TokenBucketLimiter) (elapsed : ℕ) (others : List (Option ℕ)) (subject : SubjectKey)
    (cost : ℕ)
    → IsValid limiter
    → All (OtherIsWord limiter.cfg) others
    → IsValid (check limiter elapsed others subject cost).1
unfolding check
check-IsValid limiter elapsed others subject cost v o = record {
  words = put-All SubjectKey-discrete (IsWord limiter.cfg) limiter.state subject _ v.words (
      check_loop-IsWord limiter.cfg (now_ms elapsed) _ others _ (now_ms-lt elapsed)
        (entry_word-IsWord limiter subject (now_ms elapsed) (now_ms-lt elapsed) v) o);
}

pub new-IsValid :
    (cfg : TokenBucketConfig) (limiter : TokenBucketLimiter)
    → new cfg ≡ some limiter
    → IsValid limiter
unfolding new
new-IsValid cfg limiter h = record { words = λ j w e. ground (arith, h) }
