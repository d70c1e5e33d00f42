-- ===== src/Core/RateLimit/Throughput.antt =====
-- How much a subject is granted over a run of checks, and when a denied caller gets through.
use native.Mathlib.Nat.{sub-zero}
use riftgate.Base.{
  ℕ, ◌+◌, ◌-◌, ◌*◌, ◌≤◌, ◌≡◌, refl, arith, none, some, List, [], ◌∷◌, if_pos, if_neg, ite, ◌≢◌,
  subst, ◌∙◌, sym,
}
use riftgate.Core.RateLimit.{
  SubjectKey, SubjectKey-discrete, TokenBucketConfig, TokenBucketLimiter, LimitDecision, allow,
  deny, entry_word, check, now_ms, new, saturating_scaled_burst, cost_units, token_bucket_scale,
}
use riftgate.Core.RateLimit.Level.{
  paid, BucketLevel, BucketLevel-later, attempt-Level, entry_word-Level, check-sole_attempt,
  check-state_other, check-cfg,
}

new-fresh :
    (cfg : TokenBucketConfig) (limiter : TokenBucketLimiter) (subject : SubjectKey)
    → new cfg ≡ some limiter
    → (limiter.state subject ≡ none) × (limiter.cfg ≡ cfg)
unfolding new
new-fresh cfg limiter subject h = ground arith

saturating-le : (burst : ℕ) → saturating_scaled_burst burst ≤ burst * token_bucket_scale
unfolding saturating_scaled_burst
saturating-le burst = omega arith

-- One request: the milliseconds since the one before, who sends it, and its cost.
pub record Call : Type 0 where
  pub gap : ℕ
  pub subject : SubjectKey
  pub cost : ℕ

-- What `subject` is charged by one decision, in units of cost.
abbrev pub charge : TokenBucketConfig → SubjectKey → Call → LimitDecision → ℕ
charge cfg subject call (deny wait) = 0
charge cfg subject call allow =
    ite (SubjectKey-discrete call.subject subject) (cost_units cfg call.cost) 0

-- The units granted to `subject` over a run of requests of any subjects, one after the other.
pub granted : TokenBucketLimiter → ℕ → List Call → SubjectKey → ℕ
granted limiter clock [] subject = 0
granted limiter clock (call ∷ rest) subject =
    let (decision, limiter') = check limiter (clock + call.gap) [] call.subject call.cost in
    let later = granted limiter' (clock + call.gap) rest subject in
    charge limiter.cfg subject call decision + later

pub duration : List Call → ℕ
duration [] = 0
duration (call ∷ rest) = call.gap + duration rest

charge_self :
    (cfg : TokenBucketConfig) (call : Call) (subject : SubjectKey) (d : LimitDecision)
    → call.subject ≡ subject
    → charge cfg subject call d * token_bucket_scale
      ≡ paid d (cost_units cfg call.cost * token_bucket_scale)
charge_self cfg call subject allow e = rw (if_pos _ e)
charge_self cfg call subject (deny wait) e = omega arith

charge_other :
    (cfg : TokenBucketConfig) (call : Call) (subject : SubjectKey) (d : LimitDecision)
    → call.subject ≢ subject
    → charge cfg subject call d ≡ 0
charge_other cfg call subject allow e = rw (if_neg _ e)
charge_other cfg call subject (deny wait) e = refl

check-BucketLevel_self :
    (limiter : TokenBucketLimiter) (clock level : ℕ) (subject : SubjectKey) (cost : ℕ)
    → BucketLevel limiter.cfg (limiter.state subject) clock level
    → (taken : ℕ) × (taken
        ≡ paid
            (check limiter clock [] subject cost).0
            (cost_units limiter.cfg cost * token_bucket_scale)
          * 1000)
      × (taken ≤ level)
      × BucketLevel limiter.cfg
          ((check limiter clock [] subject cost).1.state subject)
          clock
          (level - taken)
check-BucketLevel_self limiter clock level subject cost v =
    let (same, word) = check-sole_attempt limiter clock subject cost in
    let (enough, left) =
      attempt-Level limiter.cfg (cost_units limiter.cfg cost * token_bucket_scale)
        (entry_word limiter subject (now_ms clock)) clock level
        (entry_word-Level limiter subject clock level v) in
    rw (same, word) (_, refl, enough, left)

-- One request of `subject` or of another uses up what it charges `subject`.
abbrev Charged : TokenBucketLimiter → ℕ → ℕ → Call → SubjectKey → Type 0
Charged limiter clock level call subject =
    BucketLevel limiter.cfg (limiter.state subject) clock level
    → (taken : ℕ) × (taken
        ≡ charge limiter.cfg subject call (check limiter clock [] call.subject call.cost).0
          * token_bucket_scale
          * 1000)
      × (taken ≤ level)
      × BucketLevel limiter.cfg ((check limiter clock [] call.subject call.cost).1.state subject)
          clock (level - taken)

check-Charged :
    (limiter : TokenBucketLimiter) (clock level : ℕ) (call : Call) (subject : SubjectKey)
    → Charged limiter clock level call subject
check-Charged limiter clock level call subject = elim (SubjectKey-discrete call.subject subject) [
  | yes p ↦ subst (Charged limiter clock level call) p λ v.
      let (taken, e, enough, left) =
        check-BucketLevel_self limiter clock level call.subject call.cost v in
      (
        taken,
        omega (
          arith,
          e,
          charge_self limiter.cfg call call.subject
              (check limiter clock [] call.subject call.cost).0 refl,
        ),
        enough,
        left,
      )
  | no p ↦ λ v. (
    0,
    omega (
      arith,
      charge_other limiter.cfg call subject (check limiter clock [] call.subject call.cost).0 p,
    ),
    omega arith,
    rw (check-state_other limiter clock [] call.subject subject call.cost p)
        (rw (sub-zero level) v),
  )
]

granted-le-level :
    (cfg : TokenBucketConfig) (limiter : TokenBucketLimiter) (clock level : ℕ) (calls : List Call)
    (subject : SubjectKey)
    → limiter.cfg ≡ cfg
    → BucketLevel cfg (limiter.state subject) clock level
    → granted limiter clock calls subject * token_bucket_scale * 1000
      ≤ level + duration calls * cfg.rate_per_sec * token_bucket_scale
unfolding granted duration
granted-le-level cfg limiter clock level [] subject e v = omega arith
granted-le-level cfg limiter clock level (call ∷ rest) subject e v =
    let later = level + call.gap * cfg.rate_per_sec * token_bucket_scale in
    let now = clock + call.gap in
    let grown : BucketLevel limiter.cfg (limiter.state subject) now later =
      subst (λ c. BucketLevel c (limiter.state subject) now later) (sym e)
        (BucketLevel-later cfg (limiter.state subject) clock call.gap level v) in
    let (taken, spent, enough, left) = check-Charged limiter now later call subject grown in
    let limiter' = (check limiter now [] call.subject call.cost).1 in
    let same : limiter'.cfg ≡ cfg = check-cfg limiter now [] call.subject call.cost ∙ e in
    let kept : BucketLevel cfg (limiter'.state subject) now (later - taken) =
      subst (λ c. BucketLevel c (limiter'.state subject) now (later - taken)) e left in
    let others = granted-le-level cfg limiter' now (later - taken) rest subject same kept in
    omega (arith, others, spent, enough)

-- Requests that are decided one after the other, from any start of the clock and of any subjects:
-- what one subject is granted in all is at most the burst and what the rate yields in the time
-- from the start to the last request, both in thousandths of a unit.
pub granted-le :
    (cfg : TokenBucketConfig) (limiter : TokenBucketLimiter) (clock : ℕ) (calls : List Call)
    (subject : SubjectKey)
    → new cfg ≡ some limiter
    → granted limiter clock calls subject * 1000
      ≤ cfg.burst * 1000 + duration calls * cfg.rate_per_sec
granted-le cfg limiter clock calls subject h =
    let (fresh, same) = new-fresh cfg limiter subject h in
    let bound =
      granted-le-level cfg limiter clock (cfg.burst * token_bucket_scale * 1000) calls subject same
        (rw fresh (omega (arith, saturating-le cfg.burst))) in
    omega (arith, bound)
