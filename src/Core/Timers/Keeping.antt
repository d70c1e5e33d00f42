-- ===== src/Core/Timers/Keeping.antt =====
-- The invariant of the heap, the callbacks and the cancelled ids, and that each operation keeps it.
use riftgate.Base.{
  ℕ, ◌<◌, ◌≤◌, ◌≡◌, refl, sym, ◌∙◌, ap, subst, Bool, true, false, Option, none, some, List, [], ◌∷◌,
  ltb, ◌==◌, ==_iff, arith, All, Bool-cases, inl, inr,
}
use riftgate.Core.Timers.{
  Entry, entry_le, contains, remove, push, kept, find, erase, Ticked, tick_loop,
}
use riftgate.Core.Timers.Live.{
  Ordered, AllBelow, Avoids, Timer, seen, live, live_has, find-erase_other, find-erase_self,
  All-entry_le, entry_le_total,
}
use riftgate.Core.Timers.Firing.{taken, live-taken, tick_loop_due, tick_loop_future, Avoids-Ordered}

abbrev pub IdsBelow : ℕ → List ℕ → Type 0
IdsBelow n js = All (λ j. j < n) js

pub push-All :
    (P : Entry → Type 0) (e : Entry) (es : List Entry) → P e → All P es → All P (push e es)
unfolding push
push-All P e [] p v = (p, tt)
push-All P e (x ∷ xs) p (q, v) = elim (Bool-cases (entry_le e x)) [
  | inl before ↦ rw before (p, (q, v))
  | inr after ↦ rw after (q, push-All P e xs p v)
]

pub kept-All : (P : Entry → Type 0) (c : List ℕ) (es : List Entry) → All P es → All P (kept c es)
kept-All P c [] v = tt
kept-All P c (x ∷ xs) (q, v) = elim (Bool-cases (contains c x.1)) [
  | inl gone ↦ rw gone (kept-All P c xs v)
  | inr here ↦ rw here (q, kept-All P c xs v)
]

pub kept-Ordered : (c : List ℕ) (es : List Entry) → Ordered es → Ordered (kept c es)
kept-Ordered c [] v = tt
kept-Ordered c (x ∷ xs) (from, v) = elim (Bool-cases (contains c x.1)) [
  | inl gone ↦ rw gone (kept-Ordered c xs v)
  | inr here ↦ rw here (
    kept-All (λ (y : Entry). (entry_le x y ≡ true) × ((y.1 == x.1) ≡ false)) c xs from,
    kept-Ordered c xs v,
  )
]

After-All :
    (e : Entry) (es : List Entry)
    → All (λ (y : Entry). entry_le e y ≡ true) es
    → AllBelow e.1 es
    → All (λ (y : Entry). (entry_le e y ≡ true) × ((y.1 == e.1) ≡ false)) es
After-All e [] v w = tt
After-All e (y ∷ es) (h, v) (g, w) = ((h, ground (arith, g)), After-All e es v w)

pub push-Ordered :
    (e : Entry) (es : List Entry) → AllBelow e.1 es → Ordered es → Ordered (push e es)
unfolding push
push-Ordered e [] w v = (tt, tt)
push-Ordered e (x ∷ xs) (g, w) (from, v) = elim (Bool-cases (entry_le e x)) [
  | inl before ↦
      rw before (After-All e (x ∷ xs) (before, All-entry_le e x xs before from) (g, w), (from, v))
  | inr after ↦ rw after (
    push-All (λ (y : Entry). (entry_le x y ≡ true) × ((y.1 == x.1) ≡ false)) e xs
        (entry_le_total x e after, ground (arith, g)) from,
    push-Ordered e xs w v,
  )
]

remove-IdsBelow : (n i : ℕ) (js : List ℕ) → IdsBelow n js → IdsBelow n (remove js i)
remove-IdsBelow n i [] v = tt
remove-IdsBelow n i (j ∷ js) (h, v) = ground (arith, h, remove-IdsBelow n i js v)

pub IdsBelow-weaken : (m n : ℕ) (js : List ℕ) → m ≤ n → IdsBelow m js → IdsBelow n js
IdsBelow-weaken m n [] h v = tt
IdsBelow-weaken m n (j ∷ js) h (g, v) = (omega arith, IdsBelow-weaken m n js h v)

pub AllBelow-weaken : (m n : ℕ) (es : List Entry) → m ≤ n → AllBelow m es → AllBelow n es
AllBelow-weaken m n [] h v = tt
AllBelow-weaken m n (e ∷ es) h (g, v) = (omega arith, AllBelow-weaken m n es h v)

pub AllBelow-Avoids : (n : ℕ) (es : List Entry) → AllBelow n es → Avoids n es
AllBelow-Avoids n [] v = tt
AllBelow-Avoids n (e ∷ es) (g, v) = (ground (arith, g), AllBelow-Avoids n es v)

pub IdsBelow-contains : (n : ℕ) (js : List ℕ) → IdsBelow n js → contains js n ≡ false
IdsBelow-contains n [] v = refl
IdsBelow-contains n (j ∷ js) (g, v) = ground (arith, g, IdsBelow-contains n js v)

module _ {ℓ} {A : Type ℓ} where
  pub live_has-seen_other :
      (j : ℕ) (e : Entry) (b : Bool) (o : Option A) (ts : List (Timer A))
      → (e.1 == j) ≡ false
      → live_has j (seen e b o ts) ≡ live_has j ts
  live_has-seen_other j e true o ts h = refl
  live_has-seen_other j e false none ts h = refl
  live_has-seen_other j e false (some f) ts h = rw h refl

  -- Every callback belongs to a live timer.
  abbrev pub Covered : List Entry → List ℕ → List (ℕ × A) → Type ℓ
  Covered es c k = (j : ℕ) (f : A) → find k j ≡ some f → live_has j (live es c k) ≡ true

  pub erased_ne :
      (k : List (ℕ × A)) (i j : ℕ) (f : A)
      → find (erase k i) j ≡ some f
      → ((i == j) ≡ false) × (find k j ≡ some f)
  erased_ne k i j f h = elim (Bool-cases (i == j)) [
    | inl same ↦
        let lost : find (erase k i) j ≡ none =
          subst (λ n. find (erase k i) n ≡ none) ((==_iff i j).0 same) (find-erase_self k i) in
        cc (h, lost)
    | inr other ↦
        let swapped : (j == i) ≡ false = ground (arith, other) in
        (other, sym (find-erase_other k i j swapped) ∙ h)
  ]

  Covered-taken :
      (e : Entry) (es : List Entry) (c : List ℕ) (k : List (ℕ × A))
      → Ordered (e ∷ es)
      → Covered (e ∷ es) c k
      → Covered es (remove c e.1) (taken c k e.1)
  unfolding live
  Covered-taken e es c k (from, v) covered j f h =
      ap (live_has j) (live-taken es c k e.1 (Avoids-Ordered e es from))
      ∙ (elim (Bool-cases (contains c e.1)) [
        | inl gone ↦ rw gone at (covered j f (rw gone at h))
        | inr here ↦
            let (other, found) = erased_ne k e.1 j f (rw here at h) in
            sym (live_has-seen_other j e (contains c e.1) (find k e.1) (live es c k) other)
            ∙ covered j f found
      ])

  -- The parts of the state under a bound of the ids.
  abbrev pub Keeps : ℕ → List Entry → List ℕ → List (ℕ × A) → Type ℓ
  Keeps n es c k = Ordered es × AllBelow n es × IdsBelow n c × Covered es c k

  abbrev TickedKeeps : ℕ → Ticked A → Type ℓ
  TickedKeeps n r = Keeps n r.heap r.cancelled r.callbacks

  pub tick_loop-Keeps :
      (n now : ℕ) (es : List Entry) (c : List ℕ) (k : List (ℕ × A))
      → Keeps n es c k
      → TickedKeeps n (tick_loop now es k c)
  unfolding tick_loop
  tick_loop-Keeps n now [] c k v = v
  tick_loop-Keeps n now (e ∷ es) c k ((from, ordered), (small, below), ids, covered) =
      elim (Bool-cases (ltb now e.0)) [
        | inl future ↦
            subst (TickedKeeps n) (sym (tick_loop_future now e es c k future))
              ((from, ordered), (small, below), ids, covered)
        | inr past ↦ subst (TickedKeeps n) (sym (tick_loop_due now e es c k past)) (
            tick_loop-Keeps n now es (remove c e.1) (taken c k e.1) (
              ordered,
              below,
              remove-IdsBelow n e.1 c ids,
              Covered-taken e es c k (from, ordered) covered,
            ))
      ]
