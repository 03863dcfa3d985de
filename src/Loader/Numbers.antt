-- ===== src/Loader/Numbers.antt =====
-- What `int` and the arrays of loader.py make of the text of an integer.
use time_sensitive_packet.Base.{
  ℕ, suc, ◌≡◌, refl, ap, ◌∙◌, true, false, Option, none, some, List, [], ◌∷◌, map, AllOf, AllOf-map,
  map_result-map, Result, ok, Text, text_eq, isdigit, digits_from, lstrip_by, strip, str_nat,
  str_int, isdigit-str_nat, all_digits-str_nat, digits_from-str_nat, strip-digits, strip-negative,
  List-cases, inl, inr, arith,
}
use time_sensitive_packet.Base.Int.{ℤ, pos, negsuc, sub_ℕ}
use time_sensitive_packet.Floats.{FloatOps}
use time_sensitive_packet.Loader.{
  int_of, is_sign, fits_int64, int64_array, to_int, ints, tos_of, tos_column,
}

isdigit-sign : (s : Text) → isdigit s ≡ true → lstrip_by is_sign s ≡ s
isdigit-sign [] h = refl
isdigit-sign (c ∷ s) h = let digit : is_sign c ≡ false = ground arith in rw digit refl

int_of-digits : (s : Text) → isdigit s ≡ true → int_of s ≡ ok (pos (digits_from 0 s))
int_of-digits [] h = cc
int_of-digits (c ∷ s) h = rw h refl

-- Integers that an int64 holds.
abbrev pub Fits : ℤ → Type 0
Fits n = fits_int64 n ≡ true

-- What csv writes for a value that may be None, and what the loader makes of it.
abbrev pub text_of : Option ℤ → Text
text_of none = []
text_of (some n) = str_int n

abbrev pub tos_value : Option ℤ → ℤ
tos_value none = negsuc 0
tos_value (some n) = n

module _ (F : FloatOps) (float_of : Text → Result F.Float) where
  to_int-str_nat : (n : ℕ) → to_int F float_of (str_nat n) ≡ ok (pos n)
  unfolding to_int
  to_int-str_nat n =
      rw
        (
          strip-digits (str_nat n) (all_digits-str_nat n),
          isdigit-sign (str_nat n) (isdigit-str_nat n),
          isdigit-str_nat n,
        )
        (int_of-digits (str_nat n) (isdigit-str_nat n)
          ∙ ap (λ k. ok (pos k)) (digits_from-str_nat n))

  pub to_int-str_int : (n : ℤ) → to_int F float_of (str_int n) ≡ ok n
  unfolding to_int str_int
  to_int-str_int (pos n) = to_int-str_nat n
  to_int-str_int (negsuc n) =
      rw
        (
          strip-negative (str_nat (suc n)) (all_digits-str_nat (suc n)),
          isdigit-sign (str_nat (suc n)) (isdigit-str_nat (suc n)),
          isdigit-str_nat (suc n),
          digits_from-str_nat (suc n),
        )
        (ap ok (sub_zero n))
    where
      sub_zero : (n : ℕ) → sub_ℕ 0 (suc n) ≡ negsuc n
      sub_zero n = ground arith

  int64_array-Fits : (ns : List ℤ) → AllOf Fits ns → int64_array ns ≡ ok ns
  int64_array-Fits [] h = refl
  int64_array-Fits (n ∷ ns) (h, hs) = rw (h, int64_array-Fits ns hs) refl

  pub ints-map :
      {A : Type 0} (f : A → ℤ) (xs : List A)
      → AllOf (λ x. Fits (f x)) xs
      → ints F float_of (map (λ x. str_int (f x)) xs) ≡ ok (map f xs)
  unfolding ints
  ints-map f xs h =
      rw (map_result-map (to_int F float_of) (λ x. str_int (f x)) f xs (λ x. to_int-str_int (f x)))
        (int64_array-Fits (map f xs) (AllOf-map Fits f xs h))

  tos_of-cons :
      (v : Text) (c : ℕ) (t : Text) → strip v ≡ c ∷ t → tos_of F float_of v ≡ to_int F float_of v
  tos_of-cons v c t e = rw (tos_of, e) refl

  tos_of-str_int : (n : ℤ) → tos_of F float_of (str_int n) ≡ ok n
  unfolding str_int
  tos_of-str_int (pos n) = elim (List-cases (str_nat n)) [
    | inl e ↦ absurd (empty (str_nat n) e (isdigit-str_nat n))
    | inr (c, t, e) ↦
        tos_of-cons (str_nat n) c t (strip-digits (str_nat n) (all_digits-str_nat n) ∙ e)
        ∙ to_int-str_nat n
  ]
    where
      empty : (s : Text) → s ≡ [] → isdigit s ≡ true → ⊥
      empty [] e h = cc
      empty (c ∷ s) e h = cc
  tos_of-str_int (negsuc n) =
      tos_of-cons (str_int (negsuc n)) 45 (str_nat (suc n))
        (strip-negative (str_nat (suc n)) (all_digits-str_nat (suc n)))
      ∙ to_int-str_int (negsuc n)

  tos_of-text_of : (o : Option ℤ) → tos_of F float_of (text_of o) ≡ ok (tos_value o)
  tos_of-text_of none = refl
  tos_of-text_of (some n) = tos_of-str_int n

  pub tos_column-map :
      {A : Type 0} (f : A → Option ℤ) (xs : List A)
      → AllOf (λ x. Fits (tos_value (f x))) xs
      → tos_column F float_of (some (map (λ x. text_of (f x)) xs))
        ≡ ok (some (map (λ x. tos_value (f x)) xs))
  unfolding tos_column
  tos_column-map f xs h =
      rw
        (
          map_result-map (tos_of F float_of) (λ x. text_of (f x)) (λ x. tos_value (f x)) xs
              (λ x. tos_of-text_of (f x)),
          int64_array-Fits (map (λ x. tos_value (f x)) xs)
              (AllOf-map Fits (λ x. tos_value (f x)) xs h),
        )
        refl
