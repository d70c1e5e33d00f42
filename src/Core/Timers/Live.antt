-- ===== src/Core/Timers/Live.antt =====
-- The timers that are live: those of the heap that are not cancelled and have a callback.
use riftgate.Base.{
  ℕ, ◌<◌, ◌≡◌, refl, sym, ◌∙◌, Bool, true, false, ◌||◌, Option, none, some, List, [], ◌∷◌, ◌==◌,
  if◌then◌else◌, arith, All, Bool-cases, inl, inr,
}
use riftgate.Core.Timers.{Entry, entry_le, contains, remove, push, find, erase, kept}

-- Each entry comes before those behind it, and has another id.
abbrev pub Ordered : List Entry → Type 0
Ordered [] = Unit
Ordered (e ∷ es) =
    All (λ (x : Entry). (entry_le e x ≡ true) × ((x.1 == e.1) ≡ false)) es × Ordered es

abbrev pub AllBelow : ℕ → List Entry → Type 0
AllBelow n es = All (λ (x : Entry). x.1 < n) es

abbrev pub Avoids : ℕ → List Entry → Type 0
Avoids id es = All (λ (x : Entry). (x.1 == id) ≡ false) es

pub entry_le_total : (x e : Entry) → entry_le e x ≡ false → entry_le x e ≡ true
entry_le_total (d, i) (e, j) h = ground (arith, h)

entry_le_trans : (x y z : Entry) → entry_le x y ≡ true → entry_le y z ≡ true → entry_le x z ≡ true
entry_le_trans (d, i) (e, j) (f, k) h g = ground (arith, h, g)

pub All-entry_le :
    (e x : Entry) (es : List Entry)
    → entry_le e x ≡ true
    → All (λ (y : Entry). (entry_le x y ≡ true) × ((y.1 == x.1) ≡ false)) es
    → All (λ (y : Entry). entry_le e y ≡ true) es
All-entry_le e x [] h v = tt
All-entry_le e x (y ∷ es) h ((g, other), v) = (entry_le_trans e x y h g, All-entry_le e x es h v)

pub contains-remove_other :
    (js : List ℕ) (i k : ℕ) → (k == i) ≡ false → contains (remove js i) k ≡ contains js k
contains-remove_other [] i k h = refl
contains-remove_other (j ∷ js) i k h = ground (arith, h, contains-remove_other js i k h)

abbrev pub Timer {ℓ} : Type ℓ → Type ℓ
Timer A = Entry × A

==_swap : (i j : ℕ) (b : Bool) → (i == j) ≡ b → (j == i) ≡ b
==_swap i j b h = ground (arith, h)

module _ {ℓ} {A : Type ℓ} where
  pub find-erase_other :
      (ks : List (ℕ × A)) (i k : ℕ) → (k == i) ≡ false → find (erase ks i) k ≡ find ks k
  find-erase_other [] i k h = refl
  find-erase_other ((j, f) ∷ ks) i k h = ground (arith, h, find-erase_other ks i k h)

  pub find-erase_self : (ks : List (ℕ × A)) (i : ℕ) → find (erase ks i) i ≡ none
  find-erase_self [] i = refl
  find-erase_self ((j, f) ∷ ks) i = ground (arith, find-erase_self ks i)

  -- One entry before the live timers behind it.
  abbrev pub seen : Entry → Bool → Option A → List (Timer A) → List (Timer A)
  seen e true o ts = ts
  seen e false none ts = ts
  seen e false (some f) ts = (e, f) ∷ ts

  unfoldable pub live : List Entry → List ℕ → List (ℕ × A) → List (Timer A)
  live [] c k = []
  live (e ∷ es) c k = seen e (contains c e.1) (find k e.1) (live es c k)

  abbrev pub live_has : ℕ → List (Timer A) → Bool
  live_has id [] = false
  live_has id ((e, f) ∷ ts) = e.1 == id || live_has id ts

  pub live-remove :
      (es : List Entry) (c : List ℕ) (k : List (ℕ × A)) (id : ℕ)
      → Avoids id es
      → live es (remove c id) k ≡ live es c k
  unfolding live
  live-remove [] c k id v = refl
  live-remove (e ∷ es) c k id (h, v) =
      rw (contains-remove_other c id e.1 h, live-remove es c k id v) refl

  pub live-erase :
      (es : List Entry) (c : List ℕ) (k : List (ℕ × A)) (id : ℕ)
      → Avoids id es
      → live es c (erase k id) ≡ live es c k
  unfolding live
  live-erase [] c k id v = refl
  live-erase (e ∷ es) c k id (h, v) = rw (find-erase_other k id e.1 h, live-erase es c k id v) refl

  pub live-add :
      (es : List Entry) (c : List ℕ) (k : List (ℕ × A)) (id : ℕ) (f : A)
      → Avoids id es
      → live es c ((id, f) ∷ k) ≡ live es c k
  unfolding live
  live-add [] c k id f v = refl
  live-add (e ∷ es) c k id f (h, v) = rw (==_swap e.1 id false h, live-add es c k id f v) refl

  -- The timers but those of one id.
  abbrev pub without : ℕ → List (Timer A) → List (Timer A)
  without id [] = []
  without id ((e, f) ∷ ts) = if e.1 == id then without id ts else (e, f) ∷ without id ts

  without-seen_self :
      (id : ℕ) (e : Entry) (b : Bool) (o : Option A) (ts : List (Timer A))
      → (e.1 == id) ≡ true
      → without id (seen e b o ts) ≡ without id ts
  without-seen_self id e true o ts h = refl
  without-seen_self id e false none ts h = refl
  without-seen_self id e false (some f) ts h = rw h refl

  without-seen_other :
      (id : ℕ) (e : Entry) (b : Bool) (o : Option A) (ts : List (Timer A))
      → (e.1 == id) ≡ false
      → without id (seen e b o ts) ≡ seen e b o (without id ts)
  without-seen_other id e true o ts h = refl
  without-seen_other id e false none ts h = refl
  without-seen_other id e false (some f) ts h = rw h refl

  pub live-cancel :
      (es : List Entry) (c : List ℕ) (k : List (ℕ × A)) (id : ℕ)
      → live es (id ∷ c) (erase k id) ≡ without id (live es c k)
  unfolding live
  live-cancel [] c k id = refl
  live-cancel (e ∷ es) c k id = elim (Bool-cases (e.1 == id)) [
    | inl same ↦
        rw
          (
            ==_swap e.1 id true same,
            without-seen_self id e (contains c e.1) (find k e.1) (live es c k) same,
          )
          (live-cancel es c k id)
    | inr other ↦
        rw
          (
            ==_swap e.1 id false other,
            find-erase_other k id e.1 other,
            live-cancel es c k id,
            without-seen_other id e (contains c e.1) (find k e.1) (live es c k) other,
          )
          refl
  ]

  pub live-kept :
      (es : List Entry) (c : List ℕ) (k : List (ℕ × A)) → live (kept c es) [] k ≡ live es c k
  unfolding live
  live-kept [] c k = refl
  live-kept (e ∷ es) c k = elim (Bool-cases (contains c e.1)) [
    | inl gone ↦ rw gone (live-kept es c k)
    | inr here ↦ rw (here, live-kept es c k) refl
  ]

  -- The reference list is ordered by the entries.
  abbrev pub insert_timer : Timer A → List (Timer A) → List (Timer A)
  insert_timer (e, f) [] = (e, f) ∷ []
  insert_timer (e, f) ((x, g) ∷ ts) =
      if entry_le e x then (e, f) ∷ (x, g) ∷ ts else (x, g) ∷ insert_timer (e, f) ts

  insert_timer-seen_least :
      (e : Entry) (f : A) (x : Entry) (b : Bool) (o : Option A) (ts : List (Timer A))
      → entry_le e x ≡ true
      → insert_timer (e, f) ts ≡ (e, f) ∷ ts
      → insert_timer (e, f) (seen x b o ts) ≡ (e, f) ∷ seen x b o ts
  insert_timer-seen_least e f x true o ts h g = g
  insert_timer-seen_least e f x false none ts h g = g
  insert_timer-seen_least e f x false (some a) ts h g = rw h refl

  insert_timer-seen_after :
      (e : Entry) (f : A) (x : Entry) (b : Bool) (o : Option A) (ts : List (Timer A))
      → entry_le e x ≡ false
      → insert_timer (e, f) (seen x b o ts) ≡ seen x b o (insert_timer (e, f) ts)
  insert_timer-seen_after e f x true o ts h = refl
  insert_timer-seen_after e f x false none ts h = refl
  insert_timer-seen_after e f x false (some a) ts h = rw h refl

  insert_timer_least :
      (e : Entry) (f : A) (es : List Entry) (c : List ℕ) (k : List (ℕ × A))
      → All (λ (x : Entry). entry_le e x ≡ true) es
      → insert_timer (e, f) (live es c k) ≡ (e, f) ∷ live es c k
  unfolding live
  insert_timer_least e f [] c k v = refl
  insert_timer_least e f (x ∷ es) c k (h, v) =
      insert_timer-seen_least e f x (contains c x.1) (find k x.1) (live es c k) h
        (insert_timer_least e f es c k v)

  head_live :
      (e : Entry) (f : A) (es : List Entry) (c : List ℕ) (k : List (ℕ × A))
      → contains c e.1 ≡ false
      → find k e.1 ≡ some f
      → live (e ∷ es) c k ≡ (e, f) ∷ live es c k
  unfolding live
  head_live e f es c k h g = rw (h, g) refl

  pub live-push :
      (e : Entry) (f : A) (es : List Entry) (c : List ℕ) (k : List (ℕ × A))
      → Ordered es
      → contains c e.1 ≡ false
      → find k e.1 ≡ some f
      → live (push e es) c k ≡ insert_timer (e, f) (live es c k)
  unfolding live push
  live-push e f [] c k v h g = rw (h, g) refl
  live-push e f (x ∷ es) c k (from, v) h g = elim (Bool-cases (entry_le e x)) [
    | inl before ↦ rw before (
        head_live e f (x ∷ es) c k h g
        ∙ sym (insert_timer_least e f (x ∷ es) c k (before, All-entry_le e x es before from)))
    | inr after ↦
        rw (after, live-push e f es c k v h g)
          (sym (insert_timer-seen_after e f x (contains c x.1) (find k x.1) (live es c k) after))
  ]
