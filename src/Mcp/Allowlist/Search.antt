-- ===== src/Mcp/Allowlist/Search.antt =====
-- The search for a prefix around one place of the sorted vector.
use riftgate.Base.{
  ℕ, zero, suc, ◌-◌, ◌≤◌, ◌≡◌, refl, Bool, true, false, ◌&&◌, ◌||◌, Option, none, some, List, [],
  ◌∷◌, ltb, if◌then◌else◌, length, get_elem?, get_elem?-lt, Text, text_eq, text_le, is_prefix,
  text_le_trans, text_le_total, is_prefix-text_le, is_prefix-between, text_eq_refl, text_eq_sound,
  arith, Bool-cases, Option-cases, inl, inr, ◌∙◌, ap, subst, All,
}
use riftgate.Mcp.Allowlist.{
  CompiledAllowlist, any, insert_text, sort_texts, partition_point, resource_prefix_matches,
  prefix_at, is_none_left,
}

-- Some prefix of a list fits.
abbrev pub some_prefix : List Text → Text → Bool
some_prefix ps uri = any (λ p. is_prefix p uri) ps

-- The last of the texts at the head that are at most `uri`.
unfoldable pub before : Text → List Text → Option Text
before uri [] = none
before uri (p ∷ ps) =
    let later = before uri ps in
    if text_le p uri then elim later [ none ↦ some p | some q ↦ some q ] else none

abbrev pub fits : Option Text → Text → Bool
fits none uri = false
fits (some p) uri = is_prefix p uri

abbrev pub AllFrom : Text → List Text → Type 0
AllFrom t ps = All (λ p. text_le t p ≡ true) ps

abbrev pub IsSorted : List Text → Type 0
IsSorted [] = Unit
IsSorted (p ∷ ps) = AllFrom p ps × IsSorted ps

AllFrom-weaken : (s t : Text) (ps : List Text) → text_le s t ≡ true → AllFrom t ps → AllFrom s ps
AllFrom-weaken s t [] h v = tt
AllFrom-weaken s t (p ∷ ps) h (k, v) = (text_le_trans s t p h k, AllFrom-weaken s t ps h v)

AllFrom-insert_text :
    (s t : Text) (ps : List Text) → text_le s t ≡ true → AllFrom s ps → AllFrom s (insert_text t ps)
unfolding insert_text
AllFrom-insert_text s t [] h v = (h, tt)
AllFrom-insert_text s t (p ∷ ps) h v = ground (arith, AllFrom-insert_text s t ps h v.1)

insert_text-IsSorted : (t : Text) (ps : List Text) → IsSorted ps → IsSorted (insert_text t ps)
unfolding insert_text
insert_text-IsSorted t [] v = (tt, tt)
insert_text-IsSorted t (p ∷ ps) v = ground (
  arith,
  insert_text-IsSorted t ps v.1,
  AllFrom-insert_text p t ps,
  AllFrom-weaken t p ps,
  text_le_total t p,
)

pub sort_texts-IsSorted : (ps : List Text) → IsSorted (sort_texts ps)
unfolding sort_texts
sort_texts-IsSorted [] = tt
sort_texts-IsSorted (p ∷ ps) = insert_text-IsSorted p (sort_texts ps) (sort_texts-IsSorted ps)

any-insert_text :
    (test : Text → Bool) (t : Text) (ps : List Text)
    → any test (insert_text t ps) ≡ (test t || any test ps)
unfolding insert_text
any-insert_text test t [] = refl
any-insert_text test t (p ∷ ps) = ground (arith, any-insert_text test t ps)

pub any-sort_texts : (test : Text → Bool) (ps : List Text) → any test (sort_texts ps) ≡ any test ps
unfolding sort_texts
any-sort_texts test [] = refl
any-sort_texts test (p ∷ ps) =
    any-insert_text test p (sort_texts ps) ∙ ap (λ b. test p || b) (any-sort_texts test ps)

before-member :
    (uri q : Text) (ps : List Text)
    → before uri ps ≡ some q
    → (any (λ p. text_eq p q) ps ≡ true) × (text_le q uri ≡ true)
unfolding before
before-member uri q [] e = cc
before-member uri q (p ∷ ps) e = elim (Bool-cases (text_le p uri)) [
  | inr over ↦ cc (rw over at e)
  | inl under ↦ elim (Option-cases (before uri ps)) [
    | inl last_one ↦
        let same : p ≡ q = cc (rw (under, last_one) at e) in
        subst (λ t. (text_eq p t || any (λ x. text_eq x t) ps ≡ true) × (text_le t uri ≡ true)) same
          (ground (arith, text_eq_refl p), under)
    | inr (r, found) ↦
        let same : r ≡ q = cc (rw (under, found) at e) in
        let (there, least) = before-member uri q ps (found ∙ ap some same) in
        (ground (arith, there), least)
  ]
]

-- No text of a list is a proper prefix of another of it.
abbrev pub Unnested : List Text → Type 0
Unnested ps =
    (p q : Text)
    → any (λ x. text_eq x p) ps ≡ true
    → any (λ x. text_eq x q) ps ≡ true
    → is_prefix p q ≡ true
    → p ≡ q

Unnested-tail : (p : Text) (ps : List Text) → Unnested (p ∷ ps) → Unnested ps
Unnested-tail p ps v q r h k pre = v q r (ground (arith, h)) (ground (arith, k)) pre

AllFrom-any :
    (p uri : Text) (ps : List Text)
    → AllFrom p ps
    → some_prefix ps uri ≡ true
    → text_le p uri ≡ true
AllFrom-any p uri [] v h = cc
AllFrom-any p uri (q ∷ ps) (k, v) h = elim (Bool-cases (is_prefix q uri)) [
  | inl here ↦ text_le_trans p q uri k (is_prefix-text_le q uri here)
  | inr later ↦ AllFrom-any p uri ps v (rw later at h)
]

AllFrom-member :
    (p q : Text) (ps : List Text)
    → AllFrom p ps
    → any (λ x. text_eq x q) ps ≡ true
    → text_le p q ≡ true
AllFrom-member p q [] v h = cc
AllFrom-member p q (x ∷ ps) (k, v) h = elim (Bool-cases (text_eq x q)) [
  | inl here ↦ subst (λ t. text_le p t ≡ true) (text_eq_sound x q here) k
  | inr later ↦ AllFrom-member p q ps v (rw later at h)
]

-- Among sorted texts of which none nests in another, the last one up to `uri` is the one that fits.
pub before-fits :
    (uri : Text) (ps : List Text)
    → IsSorted ps
    → Unnested ps
    → some_prefix ps uri ≡ true
    → fits (before uri ps) uri ≡ true
unfolding before
before-fits uri [] sorted v h = cc
before-fits uri (p ∷ ps) (from, sorted) v h = elim (Bool-cases (some_prefix ps uri)) [
  | inl later ↦
      let under : text_le p uri ≡ true = AllFrom-any p uri ps from later in
      let ih = before-fits uri ps sorted (Unnested-tail p ps v) later in
      elim (Option-cases (before uri ps)) [
        | inl none_left ↦ cc (rw none_left at ih)
        | inr (q, found) ↦ rw (under, found) (rw found at ih)
      ]
  | inr last_one ↦
      let here : is_prefix p uri ≡ true = ground (arith, h, last_one) in
      let under = is_prefix-text_le p uri here in
      elim (Option-cases (before uri ps)) [
        | inl none_left ↦ rw (under, none_left) here
        | inr (q, found) ↦
            let (there, least) = before-member uri q ps found in
            let inside = is_prefix-between p q uri here (AllFrom-member p q ps from there) least in
            let same = v p q (ground (arith, text_eq_refl p)) (ground (arith, there)) inside in
            rw (under, found) (subst (λ t. is_prefix t uri ≡ true) same here)
      ]
]

-- Conversely, what the code finds is there.
pub before-some_prefix :
    (uri : Text) (ps : List Text) → fits (before uri ps) uri ≡ true → some_prefix ps uri ≡ true
unfolding before
before-some_prefix uri [] h = cc
before-some_prefix uri (p ∷ ps) h = elim (Bool-cases (text_le p uri)) [
  | inr over ↦ cc (rw over at h)
  | inl under ↦ elim (Option-cases (before uri ps)) [
    | inl none_left ↦ ground (arith, rw (under, none_left) at h)
    | inr (q, found) ↦ ground (arith, before-some_prefix uri ps (rw found (rw (under, found) at h)))
  ]
]

-- The element before a place.
abbrev element_before : List Text → ℕ → Option Text
element_before ps zero = none
element_before ps (suc n) = get_elem? ps n

partition_point-le :
    (uri : Text) (ps : List Text) → partition_point (λ p. text_le p uri) ps ≤ length ps
unfolding partition_point
partition_point-le uri [] = omega arith
partition_point-le uri (p ∷ ps) = ground (arith, partition_point-le uri ps)

or_here-get_elem? :
    (p : Text) (ps : List Text) (k : ℕ) (o : Option Text)
    → k ≤ length ps
    → o ≡ element_before ps k
    → (elim o [ none ↦ some p | some q ↦ some q ]) ≡ get_elem? (p ∷ ps) k
or_here-get_elem? p ps zero o h e = rw e refl
or_here-get_elem? p ps (suc j) o h e =
    let (v, there) = get_elem?-lt ps j (omega arith) in rw (e, there) refl

before-element_before :
    (uri : Text) (ps : List Text)
    → before uri ps ≡ element_before ps (partition_point (λ p. text_le p uri) ps)
unfolding before partition_point
before-element_before uri [] = refl
before-element_before uri (p ∷ ps) = elim (Bool-cases (text_le p uri)) [
  | inr over ↦ rw over refl
  | inl under ↦ rw under (
      or_here-get_elem? p ps (partition_point (λ x. text_le x uri) ps) (before uri ps)
        (partition_point-le uri ps) (before-element_before uri ps))
]

prefix_at-element_before :
    (uri : Text) (ps : List Text) (k : ℕ)
    → (ltb 0 k && prefix_at ps (k - 1) uri) ≡ fits (element_before ps k) uri
prefix_at-element_before uri ps zero = refl
prefix_at-element_before uri ps (suc n) =
    let same : suc n - 1 ≡ n = omega arith in
    rw same (elim (Option-cases (get_elem? ps n)) [
      | inl out ↦ rw out (ground arith)
      | inr (p, there) ↦ rw there (ground arith)
    ])

-- From the partition point on every text is above `uri`, and fits no more.
prefix_at-after :
    (uri : Text) (ps : List Text)
    → prefix_at ps (partition_point (λ p. text_le p uri) ps) uri ≡ false
unfolding partition_point
prefix_at-after uri [] = refl
prefix_at-after uri (p ∷ ps) = elim (Bool-cases (text_le p uri)) [
  | inl under ↦ rw under (prefix_at-after uri ps)
  | inr over ↦ rw over (elim (Bool-cases (is_prefix p uri)) [
    | inl pre ↦ cc (over, is_prefix-text_le p uri pre)
    | inr not_pre ↦ not_pre
  ])
]

or_and_false : (a b : Bool) → (a || (b && false)) ≡ a
or_and_false true b = refl
or_and_false false true = refl
or_and_false false false = refl

around_place-before :
    (uri : Text) (ps : List Text)
    → let pos = partition_point (λ p. text_le p uri) ps in
      (if is_none_left ps
        then false
        else (ltb 0 pos && prefix_at ps (pos - 1) uri)
          || (ltb pos (length ps) && prefix_at ps pos uri))
      ≡ fits (before uri ps) uri
unfolding before
around_place-before uri [] = refl
around_place-before uri (p ∷ ps) =
    rw
      (
        prefix_at-element_before uri (p ∷ ps) (partition_point (λ x. text_le x uri) (p ∷ ps)),
        prefix_at-after uri (p ∷ ps),
        ← before-element_before uri (p ∷ ps),
      )
      (or_and_false (fits (before uri (p ∷ ps)) uri)
        (ltb (partition_point (λ x. text_le x uri) (p ∷ ps)) (length (p ∷ ps))))

pub resource_prefix_matches-before :
    (a : CompiledAllowlist) (uri : Text)
    → resource_prefix_matches a uri ≡ fits (before uri a.resource_prefixes) uri
unfolding resource_prefix_matches
resource_prefix_matches-before a uri = around_place-before uri a.resource_prefixes
