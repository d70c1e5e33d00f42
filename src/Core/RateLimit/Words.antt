-- ===== src/Core/RateLimit/Words.antt =====
-- The packed words of rate_limit.rs: layout and the range of their two halves.
use riftgate.Base.{◌+◌, ap, ℕ, ◌-◌, ◌≤◌, ◌<◌, ◌≡◌, min, arith}
use riftgate.Core.RateLimit.{
  elapsed_ms, refill_scaled, TokenBucketConfig, u32_mod, u32_max, u64_mod, pack, unpack,
  saturating_scaled_burst, after_refill, attempt,
}

-- Unpacking gives back the time, and the tokens saturated at the largest u32.
pub unpack-pack :
    (tokens ms : ℕ) → ms < u32_mod → unpack (pack tokens ms) ≡ (min tokens u32_max, ms)
unfolding pack unpack
unpack-pack tokens ms h = ground arith

-- A word of the bucket: 64 bits, with no more tokens than the burst.
pub record IsWord (cfg : TokenBucketConfig) (word : ℕ) : Type 0 where
  pub fits : word < u64_mod
  pub bounded : (unpack word).0 ≤ saturating_scaled_burst cfg.burst

pub after_refill-le :
    (cfg : TokenBucketConfig) (now word : ℕ)
    → after_refill cfg now word ≤ saturating_scaled_burst cfg.burst
unfolding after_refill
after_refill-le cfg now word = omega arith

pub saturating_scaled_burst-le : (burst : ℕ) → saturating_scaled_burst burst ≤ u32_max
unfolding saturating_scaled_burst
saturating_scaled_burst-le burst = omega arith

pub pack-IsWord :
    (cfg : TokenBucketConfig) (tokens now : ℕ)
    → now < u32_mod
    → tokens ≤ saturating_scaled_burst cfg.burst
    → IsWord cfg (pack tokens now)
unfolding pack unpack
pack-IsWord cfg tokens now h k = record {
  fits = omega (arith, saturating_scaled_burst-le cfg.burst);
  bounded = omega (arith, saturating_scaled_burst-le cfg.burst);
}

pub attempt-IsWord :
    (cfg : TokenBucketConfig) (now cost word : ℕ)
    → now < u32_mod
    → IsWord cfg (attempt cfg now cost word).1
unfolding attempt
attempt-IsWord cfg now cost word h = ground (
  arith,
  after_refill-le cfg now word,
  pack-IsWord cfg (after_refill cfg now word) now,
  pack-IsWord cfg (after_refill cfg now word - cost) now,
)

-- The refill of a word, from the two numbers that were packed into it.
pub after_refill-pack :
    (cfg : TokenBucketConfig) (now tokens ms : ℕ)
    → ms < u32_mod
    → after_refill cfg now (pack tokens ms)
      ≡ min
          (min tokens u32_max + refill_scaled cfg (elapsed_ms now ms))
          (saturating_scaled_burst cfg.burst)
unfolding after_refill
after_refill-pack cfg now tokens ms h =
    ap
      (λ (w : ℕ × ℕ).
        min (w.0 + refill_scaled cfg (elapsed_ms now w.1)) (saturating_scaled_burst cfg.burst))
      (unpack-pack tokens ms h)
