-- ===== src/Core/Timers/Firing.antt =====
-- What `tick` calls and what it leaves.
use riftgate.Base.{
  ℕ, ◌≡◌, refl, ◌∙◌, Bool, true, false, Option, none, some, List, [], ◌∷◌, ltb, ◌==◌, if◌then◌else◌,
  arith, All, Bool-cases, inl, inr,
}
use riftgate.Core.Timers.{Entry, entry_le, contains, remove, find, erase, called, tick_loop}
use riftgate.Core.Timers.Live.{Ordered, Avoids, Timer, seen, live, live-remove, live-erase}

abbrev Future : ℕ → List Entry → Type 0
Future now es = All (λ (x : Entry). ltb now x.0 ≡ true) es

Future-Ordered :
    (now : ℕ) (e : Entry) (es : List Entry)
    → ltb now e.0 ≡ true
    → All (λ (x : Entry). (entry_le e x ≡ true) × ((x.1 == e.1) ≡ false)) es
    → Future now es
Future-Ordered now e [] h v = tt
Future-Ordered now e (x ∷ es) h ((g, other), v) =
    (ground (arith, h, g), Future-Ordered now e es h v)

pub Avoids-Ordered :
    (e : Entry) (es : List Entry)
    → All (λ (x : Entry). (entry_le e x ≡ true) × ((x.1 == e.1) ≡ false)) es
    → Avoids e.1 es
Avoids-Ordered e [] v = tt
Avoids-Ordered e (x ∷ es) ((g, other), v) = (other, Avoids-Ordered e es v)

module _ {ℓ} {A : Type ℓ} where
  -- The callbacks of the timers whose deadline is reached, and the other timers.
  abbrev pub due : ℕ → List (Timer A) → List A
  due now [] = []
  due now ((e, f) ∷ ts) = if ltb now e.0 then due now ts else f ∷ due now ts

  abbrev pub later : ℕ → List (Timer A) → List (Timer A)
  later now [] = []
  later now ((e, f) ∷ ts) = if ltb now e.0 then (e, f) ∷ later now ts else later now ts

  seen_future :
      (now : ℕ) (e : Entry) (b : Bool) (o : Option A) (ts : List (Timer A))
      → ltb now e.0 ≡ true
      → due now ts ≡ []
      → later now ts ≡ ts
      → (due now (seen e b o ts) ≡ []) × (later now (seen e b o ts) ≡ seen e b o ts)
  seen_future now e true o ts h g k = (g, k)
  seen_future now e false none ts h g k = (g, k)
  seen_future now e false (some f) ts h g k = rw (h, k) (g, refl)

  live-Future :
      (now : ℕ) (es : List Entry) (c : List ℕ) (k : List (ℕ × A))
      → Future now es
      → (due now (live es c k) ≡ []) × (later now (live es c k) ≡ live es c k)
  unfolding live
  live-Future now [] c k v = (refl, refl)
  live-Future now (e ∷ es) c k (h, v) =
      let (none_due, all_later) = live-Future now es c k v in
      seen_future now e (contains c e.1) (find k e.1) (live es c k) h none_due all_later

  -- The callbacks after the round that takes an entry of this id off the heap.
  abbrev pub taken : List ℕ → List (ℕ × A) → ℕ → List (ℕ × A)
  taken c k id = if contains c id then k else erase k id

  pub live-taken :
      (es : List Entry) (c : List ℕ) (k : List (ℕ × A)) (id : ℕ)
      → Avoids id es
      → live es (remove c id) (taken c k id) ≡ live es c k
  live-taken es c k id v = elim (Bool-cases (contains c id)) [
    | inl gone ↦ rw gone (live-remove es c k id v)
    | inr here ↦ rw here (live-remove es c (erase k id) id v ∙ live-erase es c k id v)
  ]

  pub tick_loop_due :
      (now : ℕ) (e : Entry) (es : List Entry) (c : List ℕ) (k : List (ℕ × A))
      → ltb now e.0 ≡ false
      → tick_loop now (e ∷ es) k c ≡ (
          let rest = tick_loop now es (taken c k e.1) (remove c e.1) in
          record rest { fired = called (contains c e.1) (find k e.1) rest.fired })
  unfolding tick_loop
  tick_loop_due now e es c k h = rw h refl

  pub tick_loop_future :
      (now : ℕ) (e : Entry) (es : List Entry) (c : List ℕ) (k : List (ℕ × A))
      → ltb now e.0 ≡ true
      → tick_loop now (e ∷ es) k c
        ≡ record { heap = e ∷ es; callbacks = k; cancelled = c; fired = [] }
  unfolding tick_loop
  tick_loop_future now e es c k h = rw h refl

  seen_due :
      (now : ℕ) (e : Entry) (b : Bool) (o : Option A) (ts : List (Timer A))
      → ltb now e.0 ≡ false
      → (due now (seen e b o ts) ≡ called b o (due now ts))
        × (later now (seen e b o ts) ≡ later now ts)
  seen_due now e true o ts h = (refl, refl)
  seen_due now e false none ts h = (refl, refl)
  seen_due now e false (some f) ts h = rw h (refl, refl)

  pub tick_loop-live :
      (now : ℕ) (es : List Entry) (c : List ℕ) (k : List (ℕ × A))
      → Ordered es
      → let r = tick_loop now es k c in
        (r.fired ≡ due now (live es c k))
        × (live r.heap r.cancelled r.callbacks ≡ later now (live es c k))
  unfolding live tick_loop
  tick_loop-live now [] c k v = (refl, refl)
  tick_loop-live now (e ∷ es) c k (from, v) = elim (Bool-cases (ltb now e.0)) [
    | inl future ↦
        let (none_due, all_later) =
          live-Future now (e ∷ es) c k (future, Future-Ordered now e es future from) in
        rw (tick_loop_future now e es c k future, none_due, all_later) (refl, refl)
    | inr past ↦
        let same = live-taken es c k e.1 (Avoids-Ordered e es from) in
        let (fired, rest) = tick_loop-live now es (remove c e.1) (taken c k e.1) v in
        let (dues, laters) = seen_due now e (contains c e.1) (find k e.1) (live es c k) past in
        rw (tick_loop_due now e es c k past, dues, laters, fired, rest, same) (refl, refl)
  ]
