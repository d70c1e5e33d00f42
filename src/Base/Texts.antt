-- ===== src/Base/Texts.antt =====
-- Texts as lists of bytes: equality, the order of Rust's `str`, and prefixes.
use mathlib.Core.Option.{Option, none, some}
use Prim.Native.Nat.{◌+◌, ◌<◌, ◌*◌, ◌-◌, ℕ, zero, suc}
use Prim.Native.Char.{code}
use Prim.Native.String.{String}
use mathlib.Core.Path.{◌≡◌, refl}
use mathlib.Core.Bool.{Bool, true, false, ◌&&◌, ◌||◌}
use mathlib.Core.List.{List, [], ◌∷◌}
use native.Mathlib.Omega.{arith}
use mathlib.Core.Logic.{inl, inr}
use riftgate.Base.Tests.{Bool-cases, if◌then◌else◌, leb, ltb, ◌==◌}

abbrev pub Text : Type 0
Text = List ℕ

-- The bytes of an ASCII text.
abbrev pub codes : String → Text
codes String.[] = []
codes (String.◌∷◌ c s) = code c ∷ codes s

abbrev pub text_eq : Text → Text → Bool
text_eq [] [] = true
text_eq [] (y ∷ ys) = false
text_eq (x ∷ xs) [] = false
text_eq (x ∷ xs) (y ∷ ys) = (x == y) && text_eq xs ys

pub text_eq_refl : (s : Text) → text_eq s s ≡ true
text_eq_refl [] = refl
text_eq_refl (x ∷ xs) = ground (arith, text_eq_refl xs)

pub text_eq_sound : (s t : Text) → text_eq s t ≡ true → s ≡ t
text_eq_sound [] [] e = refl
text_eq_sound [] (y ∷ ys) e = cc
text_eq_sound (x ∷ xs) [] e = cc
text_eq_sound (x ∷ xs) (y ∷ ys) e = ground (arith, text_eq_sound xs ys)

-- `s <= t`: byte by byte, a prefix first.
abbrev pub text_le : Text → Text → Bool
text_le [] t = true
text_le (x ∷ xs) [] = false
text_le (x ∷ xs) (y ∷ ys) = ltb x y || ((x == y) && text_le xs ys)

-- `t.starts_with(s)`.
abbrev pub is_prefix : Text → Text → Bool
is_prefix [] t = true
is_prefix (x ∷ xs) [] = false
is_prefix (x ∷ xs) (y ∷ ys) = (x == y) && is_prefix xs ys

pub text_le_refl : (s : Text) → text_le s s ≡ true
text_le_refl [] = refl
text_le_refl (x ∷ xs) = ground (arith, text_le_refl xs)

pub text_le_trans : (s t u : Text) → text_le s t ≡ true → text_le t u ≡ true → text_le s u ≡ true
text_le_trans [] t u h k = refl
text_le_trans (x ∷ xs) [] u h k = cc
text_le_trans (x ∷ xs) (y ∷ ys) [] h k = cc
text_le_trans (x ∷ xs) (y ∷ ys) (z ∷ zs) h k = ground (arith, text_le_trans xs ys zs)

pub text_le_total : (s t : Text) → text_le s t ≡ false → text_le t s ≡ true
text_le_total [] t h = cc
text_le_total (x ∷ xs) [] h = refl
text_le_total (x ∷ xs) (y ∷ ys) h = ground (arith, text_le_total xs ys)

pub is_prefix-text_le : (s t : Text) → is_prefix s t ≡ true → text_le s t ≡ true
is_prefix-text_le [] t h = refl
is_prefix-text_le (x ∷ xs) [] h = cc
is_prefix-text_le (x ∷ xs) (y ∷ ys) h = ground (arith, is_prefix-text_le xs ys)

-- A text between a prefix of `u` and `u` has that prefix too.
pub is_prefix-between :
    (s t u : Text)
    → is_prefix s u ≡ true
    → text_le s t ≡ true
    → text_le t u ≡ true
    → is_prefix s t ≡ true
is_prefix-between [] t u p h k = refl
is_prefix-between (x ∷ xs) [] u p h k = cc
is_prefix-between (x ∷ xs) (y ∷ ys) [] p h k = cc
is_prefix-between (x ∷ xs) (y ∷ ys) (z ∷ zs) p h k = ground (arith, is_prefix-between xs ys zs)

abbrev pub is_whitespace : ℕ → Bool
is_whitespace c = (leb 9 c && leb c 13) || c == 32

-- The whitespace beyond ASCII by its bytes in UTF-8: U+0085, U+00A0; and U+1680, U+2000 to U+200A,
-- U+2028, U+2029, U+202F, U+205F, U+3000.
abbrev is_space_2 : ℕ → ℕ → Bool
is_space_2 c d = c == 0xC2 && (d == 0x85 || d == 0xA0)

abbrev is_space_3 : ℕ → ℕ → ℕ → Bool
is_space_3 c d e =
    (c == 0xE1 && d == 0x9A && e == 0x80)
    || (c == 0xE2 && d == 0x80 && (leb 0x80 e && leb e 0x8A || e == 0xA8 || e == 0xA9 || e == 0xAF))
    || (c == 0xE2 && d == 0x81 && e == 0x9F)
    || (c == 0xE3 && d == 0x80 && e == 0x80)

abbrev head_or_zero : Text → ℕ
head_or_zero [] = 0
head_or_zero (c ∷ cs) = c

abbrev tail_of : Text → Text
tail_of [] = []
tail_of (c ∷ cs) = cs

-- How many bytes the whitespace character at the head of a text has, 0 if there is none.
abbrev pub space_len : ℕ → Text → ℕ
space_len c cs =
    if ltb c 128
    then (if is_whitespace c then 1 else 0)
    else if is_space_2 c (head_or_zero cs)
    then 2
    else if is_space_3 c (head_or_zero cs) (head_or_zero (tail_of cs))
    then 3
    else 0

-- `skip` bytes of a whitespace character are still to be taken off.
abbrev pub trim_from : (skip : ℕ) → Text → Text
trim_from skip [] = []
trim_from zero (c ∷ cs) =
    let n = space_len c cs in let rest = trim_from (n - 1) cs in if n == 0 then c ∷ cs else rest
trim_from (suc skip) (c ∷ cs) = trim_from skip cs

-- The two halves of `trim`.
abbrev pub trim_start : Text → Text
trim_start t = trim_from 0 t

abbrev pub is_nil : Text → Bool
is_nil [] = true
is_nil (c ∷ cs) = false

abbrev pub trim_end : Text → Text
trim_end [] = []
trim_end (c ∷ cs) = let rest = trim_end cs in if is_nil (trim_start (c ∷ cs)) then [] else c ∷ rest

-- `parse` of an unsigned number below a bound: a plus sign may stand before its digits.
abbrev pub parse_digits : ℕ → ℕ → Text → Option ℕ
parse_digits bound n [] = some n
parse_digits bound n (c ∷ cs) =
    if leb b'0' c && leb c b'9' && ltb (n * 10 + (c - b'0')) bound
    then parse_digits bound (n * 10 + (c - b'0')) cs
    else none

abbrev pub drop_plus : Text → Text
drop_plus [] = []
drop_plus (c ∷ cs) = if c == b'+' then cs else c ∷ cs

abbrev pub parse_below : ℕ → Text → Option ℕ
parse_below bound text =
    let digits = drop_plus text in if is_nil digits then none else parse_digits bound 0 digits

parse_digits-lt :
    (bound n m : ℕ) (text : Text) → n < bound → parse_digits bound n text ≡ some m → m < bound
parse_digits-lt bound n m [] h e = let same : n ≡ m = cc e in omega (arith, h, same)
parse_digits-lt bound n m (c ∷ cs) h e =
    elim (Bool-cases (leb b'0' c && leb c b'9' && ltb (n * 10 + (c - b'0')) bound)) [
      | inl digit ↦
          let small : n * 10 + (c - b'0') < bound = ground (arith, digit) in
          parse_digits-lt bound (n * 10 + (c - b'0')) m cs small (rw digit at e)
      | inr other ↦ cc (rw other at e)
    ]

pub parse_below-lt :
    (bound m : ℕ) (text : Text) → 0 < bound → parse_below bound text ≡ some m → m < bound
parse_below-lt bound m text h e = elim (Bool-cases (is_nil (drop_plus text))) [
  | inl empty ↦ cc (rw empty at e)
  | inr full ↦ parse_digits-lt bound 0 m (drop_plus text) h (rw full at e)
]
