-- ===== src/Floats/Plain.antt =====
-- Integers with a nan, in place of doubles, as an instance of the interface and of the facts that
-- theorems assume. They round every quotient towards zero.
use time_sensitive_packet.Base.{
  ℕ, ◌+◌, ◌*◌, ◌/◌, ◌^◌, ◌≡◌, refl, ◌⊎◌, Bool, true, false, arith, if◌then◌else◌, beq_ℤ,
}
use time_sensitive_packet.Base.Int.{ℤ, pos, ◌+ℤ◌, ◌-ℤ◌, pos_part, neg_part, sub_ℕ, ltb_ℤ}
use time_sensitive_packet.Floats.{FloatOps, ExactSums, FloatOrder}

pub data Number : Type 0 where
  not_a_number : Number
  number : ℤ → Number

abbrev size : ℤ → ℕ
size n = pos_part n + neg_part n

abbrev sign_times : ℤ → ℤ → ℕ → ℤ
sign_times a b n =
    if ltb_ℤ a (pos 0)
    then (if ltb_ℤ b (pos 0) then pos n else sub_ℕ 0 n)
    else (if ltb_ℤ b (pos 0) then sub_ℕ 0 n else pos n)

abbrev lift : (ℤ → ℤ → ℤ) → Number → Number → Number
lift f not_a_number b = not_a_number
lift f (number a) not_a_number = not_a_number
lift f (number a) (number b) = number (f a b)

abbrev compare_with : (ℤ → ℤ → Bool) → Number → Number → Bool
compare_with f not_a_number b = false
compare_with f (number a) not_a_number = false
compare_with f (number a) (number b) = f a b

abbrev divide : Number → Number → Number
divide a not_a_number = not_a_number
divide not_a_number (number b) = not_a_number
divide (number a) (number b) =
    if beq_ℤ b (pos 0) then not_a_number else number (sign_times a b (size a / size b))

abbrev test_nan : Number → Bool
test_nan not_a_number = true
test_nan (number a) = false

abbrev whole : Number → ℤ
whole not_a_number = pos 0
whole (number a) = a

abbrev magnitude : Number → Number
magnitude not_a_number = not_a_number
magnitude (number a) = number (pos (size a))

abbrev pub plain_floats : FloatOps
plain_floats = record {
  Float = Number;
  nan = not_a_number;
  of_int = number;
  decimal = λ m k. number (pos (m / 10 ^ k));
  plus = lift ◌+ℤ◌;
  minus = lift ◌-ℤ◌;
  times = lift (λ a b. sign_times a b (size a * size b));
  over = divide;
  absolute = magnitude;
  lt = compare_with ltb_ℤ;
  equal = compare_with beq_ℤ;
  is_nan = test_nan;
  is_inf = λ x. false;
  truncate = whole;
}

pub plain_floats_sums : ExactSums plain_floats
plain_floats_sums = record { plus-of_int = λ a b p q r. refl }

compare_irrefl : (a : Number) → compare_with ltb_ℤ a a ≡ false
compare_irrefl not_a_number = refl
compare_irrefl (number a) = ground arith

compare_trans :
    (a b c : Number)
    → compare_with ltb_ℤ a b ≡ true
    → compare_with ltb_ℤ b c ≡ true
    → compare_with ltb_ℤ a c ≡ true
compare_trans not_a_number b c h k = cc
compare_trans (number a) not_a_number c h k = cc
compare_trans (number a) (number b) not_a_number h k = cc
compare_trans (number a) (number b) (number c) h k = ground arith

compare_split :
    (a b c : Number)
    → test_nan b ≡ false
    → compare_with ltb_ℤ a c ≡ true
    → (compare_with ltb_ℤ a b ≡ true) ⊎ (compare_with ltb_ℤ b c ≡ true)
compare_split not_a_number b c n h = cc
compare_split (number a) not_a_number c n h = cc
compare_split (number a) (number b) not_a_number n h = cc
compare_split (number a) (number b) (number c) n h = ground arith

pub plain_floats_order : FloatOrder plain_floats
plain_floats_order = record {
  lt_irrefl = compare_irrefl;
  lt_trans = compare_trans;
  lt_split = compare_split;
}
