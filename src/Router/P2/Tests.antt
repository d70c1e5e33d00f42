-- ===== src/Router/P2/Tests.antt =====
-- An estimator over fractions.
use riftgate.Base.{ℕ, ◌+◌, ◌-◌, ◌*◌, ltb, leb}
use riftgate.Router.P2.{Floats}

-- Fractions in place of floats, without signs.
abbrev pub fractions : Floats
fractions = record {
  F = ℕ × ℕ;
  add = λ a b. (a.0 * b.1 + b.0 * a.1, a.1 * b.1);
  sub = λ a b. (a.0 * b.1 - b.0 * a.1, a.1 * b.1);
  mul = λ a b. (a.0 * b.0, a.1 * b.1);
  div = λ a b. (a.0 * b.1, a.1 * b.0);
  neg = λ a. a;
  signum = λ a. (1, 1);
  ltf = λ a b. ltb (a.0 * b.1) (b.0 * a.1);
  lef = λ a b. leb (a.0 * b.1) (b.0 * a.1);
  lit = λ n. (n, 1);
  to_f32 = λ a. a.0;
  lt_f32 = λ a b. ltb a b;
  as_secs_f64 = λ nanos. (nanos, 1000000000);
}
