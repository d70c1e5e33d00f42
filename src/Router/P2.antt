-- ===== src/Router/P2.antt =====
-- crates/riftgate-router/src/hedged.rs: the P² quantile estimator.
pub mod Tests
pub mod Warmup
use riftgate.Base.{
  ℕ, zero, suc, ◌+◌, ◌-◌, ◌^◌, min, Bool, true, false, ◌&&◌, ◌||◌, not, Option, none, some, List,
  [], ◌∷◌, ltb, leb, if◌then◌else◌, ◌==◌, ◌≡◌,
}
use riftgate.Core.Router.{F32}

-- The f64 and f32 operations of the language: `ge x y` of the source is `lef y x`, `lit n` a
-- number without fraction, `as_secs_f64` that of a duration in nanoseconds.
pub record Floats : Type 1 where
  pub F : Type 0
  pub add : F → F → F
  pub sub : F → F → F
  pub mul : F → F → F
  pub div : F → F → F
  pub neg : F → F
  pub signum : F → F
  pub ltf : F → F → Bool
  pub lef : F → F → Bool
  pub lit : ℕ → F
  pub to_f32 : F → F32
  pub lt_f32 : F32 → F32 → Bool
  pub as_secs_f64 : ℕ → F

abbrev u32_max : ℕ
u32_max = 2 ^ 32 - 1

module _ (f : Floats) where
  -- `[f64; 5]`; every index of the source is below 5.
  pub record Five : Type 0 where
    pub m0 : f.F
    pub m1 : f.F
    pub m2 : f.F
    pub m3 : f.F
    pub m4 : f.F

  abbrev pub at : Five → ℕ → f.F
  at v zero = v.m0
  at v (suc zero) = v.m1
  at v (suc (suc zero)) = v.m2
  at v (suc (suc (suc zero))) = v.m3
  at v (suc (suc (suc (suc i)))) = v.m4

  abbrev pub put_at : Five → ℕ → f.F → Five
  put_at v zero x = record v { m0 = x }
  put_at v (suc zero) x = record v { m1 = x }
  put_at v (suc (suc zero)) x = record v { m2 = x }
  put_at v (suc (suc (suc zero))) x = record v { m3 = x }
  put_at v (suc (suc (suc (suc i)))) x = record v { m4 = x }

  abbrev all_zero : Five
  all_zero = record { m0 = f.lit 0; m1 = f.lit 0; m2 = f.lit 0; m3 = f.lit 0; m4 = f.lit 0 }

  pub record P2Estimator : Type 0 where
    pub q : Five
    pub n : Five
    pub n_prime : Five
    pub dn : Five
    pub count : ℕ
    pub p : f.F

  pub new_estimator : f.F → P2Estimator
  new_estimator p = record {
    q = all_zero;
    n = all_zero;
    n_prime = all_zero;
    dn = record {
      m0 = f.lit 0;
      m1 = f.div p (f.lit 2);
      m2 = p;
      m3 = f.div (f.add (f.lit 1) p) (f.lit 2);
      m4 = f.lit 1;
    };
    count = 0;
    p = p;
  }

  -- `sort_by` is stable; heights that do not compare count as equal.
  pub insert_sorted : f.F → List f.F → List f.F
  insert_sorted x [] = x ∷ []
  insert_sorted x (y ∷ ys) = if f.ltf y x then y ∷ insert_sorted x ys else x ∷ y ∷ ys

  pub sort_heights : List f.F → List f.F
  unfolding insert_sorted
  sort_heights [] = []
  sort_heights (x ∷ xs) = insert_sorted x (sort_heights xs)

  abbrev pub heights : Five → List f.F
  heights v = v.m0 ∷ v.m1 ∷ v.m2 ∷ v.m3 ∷ v.m4 ∷ []

  abbrev pub of_heights : List f.F → Five → Five
  of_heights (a ∷ b ∷ c ∷ d ∷ e ∷ []) v = record { m0 = a; m1 = b; m2 = c; m3 = d; m4 = e }
  of_heights xs v = v

  -- The fifth observation sorts the heights and places the markers.
  pub place : P2Estimator → P2Estimator
  unfolding sort_heights
  place e = record e {
    q = of_heights (sort_heights (heights e.q)) e.q;
    n = record { m0 = f.lit 0; m1 = f.lit 1; m2 = f.lit 2; m3 = f.lit 3; m4 = f.lit 4 };
    n_prime = record {
      m0 = f.lit 0;
      m1 = f.mul (f.lit 2) e.p;
      m2 = f.mul (f.lit 4) e.p;
      m3 = f.add (f.lit 2) (f.mul (f.lit 2) e.p);
      m4 = f.lit 4;
    };
  }

  pub hold : P2Estimator → f.F → P2Estimator
  hold e x =
      let e' = record e { q = put_at e.q e.count x; count = e.count + 1 } in
      if e'.count == 5 then place e' else e'

  abbrev in_cell : Five → f.F → ℕ → Bool
  in_cell q x i = f.lef (at q i) x && f.ltf x (at q (i + 1))

  -- The cell of an observation, and the heights with an outer marker moved to it.
  pub locate : Five → f.F → ℕ × Five
  locate q x =
      if f.ltf x q.m0
      then (0, record q { m0 = x })
      else if f.lef q.m4 x
      then (3, record q { m4 = x })
      else if in_cell q x 0
      then (0, q)
      else if in_cell q x 1
      then (1, q)
      else if in_cell q x 2
      then (2, q)
      else (3, q)

  -- The markers `k + 1 .. 5` move by one place.
  pub shift : Five → ℕ → Five
  shift n k =
      let step = λ (i : ℕ). if ltb k i then f.add (at n i) (f.lit 1) else at n i in
      record { m0 = n.m0; m1 = step 1; m2 = step 2; m3 = step 3; m4 = step 4 }

  pub add_five : Five → Five → Five
  add_five a b = record {
    m0 = f.add a.m0 b.m0;
    m1 = f.add a.m1 b.m1;
    m2 = f.add a.m2 b.m2;
    m3 = f.add a.m3 b.m3;
    m4 = f.add a.m4 b.m4;
  }

  -- The height of marker `i` after a move in the direction `s`: parabolic if it stays between its
  -- neighbours, else linear.
  pub predicted : P2Estimator → ℕ → f.F → f.F
  predicted e i s =
      let qi = at e.q i in
      let q_above = at e.q (i + 1) in
      let q_below = at e.q (i - 1) in
      let ni = at e.n i in
      let n_above = at e.n (i + 1) in
      let n_below = at e.n (i - 1) in
      let qp = f.add qi (
        f.mul (f.div s (f.sub n_above n_below)) (
          f.add (f.div (f.mul (f.add (f.sub ni n_below) s) (f.sub q_above qi)) (f.sub n_above ni))
            (f.div (f.mul (f.sub (f.sub n_above ni) s) (f.sub qi q_below)) (f.sub n_below ni)))) in
      let neighbour = if f.ltf (f.lit 0) s then i + 1 else i - 1 in
      if f.ltf q_below qp && f.ltf qp q_above
      then qp
      else f.add qi (f.div (f.mul s (f.sub (at e.q neighbour) qi)) (f.sub (at e.n neighbour) ni))

  pub adjust : ℕ → P2Estimator → P2Estimator
  adjust i e =
      let d = f.sub (at e.n_prime i) (at e.n i) in
      let np = f.sub (at e.n (i + 1)) (at e.n i) in
      let nm = f.sub (at e.n (i - 1)) (at e.n i) in
      let one = f.lit 1 in
      let s = f.signum d in
      if (f.lef one d && f.ltf one np) || (f.lef d (f.neg one) && f.ltf nm (f.neg one))
      then record e { q = put_at e.q i (predicted e i s); n = put_at e.n i (f.add (at e.n i) s) }
      else e

  pub observe : P2Estimator → f.F → P2Estimator
  observe e x =
      if ltb e.count 5
      then hold e x
      else let (k, q) = locate e.q x in
        let e' = record e { q = q; n = shift e.n k; n_prime = add_five e.n_prime e.dn } in
        let e'' = adjust 3 (adjust 2 (adjust 1 e')) in
        record e'' { count = min (e''.count + 1) u32_max }

  pub quantile : P2Estimator → Option f.F
  quantile e = if ltb e.count 5 then none else some e.q.m2

  pub observe_all : P2Estimator → List f.F → P2Estimator
  observe_all e [] = e
  observe_all e (x ∷ xs) = observe_all (observe e x) xs
