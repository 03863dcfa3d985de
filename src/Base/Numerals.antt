-- ===== src/Base/Numerals.antt =====
-- Integers as texts, and texts joined and split: Python's `str(n)`, `sep.join` and `s.split(c)`.
use time_sensitive_packet.Base.Tests.{◌==◌, if◌then◌else◌, Bool-cases}
use time_sensitive_packet.Base.Int.{ℤ, pos, negsuc}
use time_sensitive_packet.Base.Keys.{contains, nat_eq}
use time_sensitive_packet.Base.Texts.{
  Text, is_digit, digits_from, all_digits, isdigit, is_space, rstrip, strip,
}
use Prim.Native.Nat.{ℕ, zero, suc, ◌+◌, ◌-◌, ◌*◌, ◌/◌, ◌%◌, ◌<◌}
use mathlib.Core.Path.{◌≡◌, refl, sym, ap, ◌∙◌}
use mathlib.Core.Logic.{◌⊎◌, inl, inr}
use mathlib.Core.Bool.{true, false, ◌||◌}
use mathlib.Core.List.{List, [], ◌∷◌, ◌++◌}
use native.Mathlib.Omega.{arith}

-- The decimal digits of n in front of `s`; n + 1 rounds are enough.
abbrev pub digits_of : ℕ → ℕ → Text → Text
digits_of zero n s = s
digits_of (suc fuel) n s = elim (n / 10) [
  | zero ↦ (48 + n % 10) ∷ s
  | suc m ↦ digits_of fuel (suc m) ((48 + n % 10) ∷ s)
]

-- `str(n)`
unfoldable pub str_nat : ℕ → Text
str_nat n = digits_of (suc n) n []

unfoldable pub str_int : ℤ → Text
unfolding str_nat
str_int (pos n) = str_nat n
str_int (negsuc n) = 45 ∷ str_nat (suc n)

-- `separator.join(parts)`
abbrev pub join : Text → List Text → Text
join separator [] = []
join separator (t ∷ []) = t
join separator (t ∷ u ∷ ts) = t ++ (separator ++ join separator (u ∷ ts))

abbrev pub grow : ℕ → List Text → List Text
grow c [] = (c ∷ []) ∷ []
grow c (t ∷ ts) = (c ∷ t) ∷ ts

-- `s.split(c)`, for one character.
abbrev pub split_at : ℕ → Text → List Text
split_at c [] = [] ∷ []
split_at c (x ∷ s) = if x == c then [] ∷ split_at c s else grow x (split_at c s)

pub ℕ-cases : (n : ℕ) → (n ≡ 0) ⊎ ((m : ℕ) × (n ≡ suc m))
ℕ-cases zero = inl refl
ℕ-cases (suc m) = inr (m, refl)

digits_of-last : (fuel n : ℕ) (s : Text) → n / 10 ≡ 0 → digits_of (suc fuel) n s ≡ (48 + n % 10) ∷ s
digits_of-last fuel n s e = rw (digits_of, e) refl

digits_of-next :
    (fuel n m : ℕ) (s : Text)
    → n / 10 ≡ suc m
    → digits_of (suc fuel) n s ≡ digits_of fuel (suc m) ((48 + n % 10) ∷ s)
digits_of-next fuel n m s e = rw (digits_of, e) refl

pub digits_from-digits_of :
    (fuel n : ℕ) (s : Text) → n < fuel → digits_from 0 (digits_of fuel n s) ≡ digits_from n s
digits_from-digits_of zero n s h = absurd (omega arith)
digits_from-digits_of (suc fuel) n s h = elim (ℕ-cases (n / 10)) [
  | inl e ↦ rw (digits_of-last fuel n s e) (ap (λ k. digits_from k s) (last_digit e))
  | inr (m, e) ↦ rw (digits_of-next fuel n m s e) (
      digits_from-digits_of fuel (suc m) ((48 + n % 10) ∷ s) (below m e)
      ∙ ap (λ k. digits_from k s) (next_digit m e))
]
  where
    last_digit : n / 10 ≡ 0 → 10 * 0 + ((48 + n % 10) - 48) ≡ n
    last_digit e = omega arith

    next_digit : (m : ℕ) → n / 10 ≡ suc m → 10 * suc m + ((48 + n % 10) - 48) ≡ n
    next_digit m e = omega arith

    below : (m : ℕ) → n / 10 ≡ suc m → suc m < fuel
    below m e = omega arith

pub digits_from-str_nat : (n : ℕ) → digits_from 0 (str_nat n) ≡ n
unfolding str_nat
digits_from-str_nat n = digits_from-digits_of (suc n) n [] (omega arith)

pub all_digits-digits_of :
    (fuel n : ℕ) (s : Text) → all_digits s ≡ true → all_digits (digits_of fuel n s) ≡ true
all_digits-digits_of zero n s h = h
all_digits-digits_of (suc fuel) n s h = elim (ℕ-cases (n / 10)) [
  | inl e ↦ rw (digits_of-last fuel n s e) (more h)
  | inr (m, e) ↦
      rw (digits_of-next fuel n m s e)
        (all_digits-digits_of fuel (suc m) ((48 + n % 10) ∷ s) (more h))
]
  where
    more : all_digits s ≡ true → all_digits ((48 + n % 10) ∷ s) ≡ true
    more h = ground arith

pub all_digits-str_nat : (n : ℕ) → all_digits (str_nat n) ≡ true
unfolding str_nat
all_digits-str_nat n = all_digits-digits_of (suc n) n [] refl

-- A character that is no digit does not stand in a number.
pub contains-digits :
    (c : ℕ) (s : Text) → is_digit c ≡ false → all_digits s ≡ true → contains c s ≡ false
contains-digits c [] h d = refl
contains-digits c (x ∷ s) h d = ground (arith, contains-digits c s h, nat_eq.beq_iff c x)

pub contains-str_nat : (c n : ℕ) → is_digit c ≡ false → contains c (str_nat n) ≡ false
contains-str_nat c n h = contains-digits c (str_nat n) h (all_digits-str_nat n)

-- Neither does it in one with a sign, unless it is the sign.
pub contains-str_int :
    (c : ℕ) (n : ℤ) → is_digit c ≡ false → (c == 45) ≡ false → contains c (str_int n) ≡ false
unfolding str_int
contains-str_int c (pos n) h sign = contains-str_nat c n h
contains-str_int c (negsuc n) h sign = rw (sign, contains-str_nat c (suc n) h) refl

pub contains-append : (c : ℕ) (s t : Text) → contains c (s ++ t) ≡ (contains c s || contains c t)
contains-append c [] t = refl
contains-append c (x ∷ s) t = ground (arith, contains-append c s t)

-- The text in front of the first `c` is the first part.
pub split_at-first :
    (c : ℕ) (s t : Text) → contains c s ≡ false → split_at c (s ++ c ∷ t) ≡ s ∷ split_at c t
split_at-first c [] t h = ground (arith, nat_eq.beq_iff c c)
split_at-first c (x ∷ s) t h = elim (Bool-cases (x == c)) [
  | inl same ↦ absurd (ground (arith, nat_eq.beq_iff c x))
  | inr other ↦ rw (other, split_at-first c s t (ground arith)) refl
]

digits_of-cons : (fuel n : ℕ) (s : Text) → (c : ℕ) × (t : Text) × (digits_of (suc fuel) n s ≡ c ∷ t)
digits_of-cons zero n s = elim (ℕ-cases (n / 10)) [
  | inl e ↦ (48 + n % 10, s, digits_of-last zero n s e)
  | inr (m, e) ↦ (48 + n % 10, s, digits_of-next zero n m s e)
]
digits_of-cons (suc fuel) n s = elim (ℕ-cases (n / 10)) [
  | inl e ↦ (48 + n % 10, s, digits_of-last (suc fuel) n s e)
  | inr (m, e) ↦
      let (c, t, g) = digits_of-cons fuel (suc m) ((48 + n % 10) ∷ s) in
      (c, t, digits_of-next (suc fuel) n m s e ∙ g)
]

pub isdigit-str_nat : (n : ℕ) → isdigit (str_nat n) ≡ true
unfolding str_nat
isdigit-str_nat n =
    let (c, t, e) = digits_of-cons n n [] in
    ap isdigit e ∙ nonempty c t (ap all_digits (sym e) ∙ all_digits-str_nat n)
  where
    nonempty : (c : ℕ) (t : Text) → all_digits (c ∷ t) ≡ true → isdigit (c ∷ t) ≡ true
    nonempty c t h = h

rstrip-digits : (s : Text) → all_digits s ≡ true → rstrip s ≡ s
rstrip-digits [] h = refl
rstrip-digits (c ∷ []) h = ground arith
rstrip-digits (c ∷ d ∷ s) h =
    let rest : rstrip (d ∷ s) ≡ d ∷ s = rstrip-digits (d ∷ s) (ground arith) in keep rest
  where
    keep : rstrip (d ∷ s) ≡ d ∷ s → rstrip (c ∷ d ∷ s) ≡ c ∷ d ∷ s
    keep e = rw (rstrip, e) refl

-- White space is all that `strip` takes away, so digits stay.
pub strip-digits : (s : Text) → all_digits s ≡ true → strip s ≡ s
strip-digits [] h = refl
strip-digits (c ∷ s) h =
    let front : is_space c ≡ false = ground arith in rw (front) (rstrip-digits (c ∷ s) h)

-- Behind a minus sign too.
pub strip-negative : (s : Text) → all_digits s ≡ true → strip (45 ∷ s) ≡ 45 ∷ s
strip-negative [] h = refl
strip-negative (c ∷ s) h = rw (rstrip, rstrip-digits (c ∷ s) h) refl
