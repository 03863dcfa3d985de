-- ===== src/Floats.antt =====
-- Python's float, the IEEE 754 double, as an interface: the operations that the analysis calls,
-- and beside them the facts about doubles that some theorems name as hypotheses.
pub mod Plain
use time_sensitive_packet.Base.{ℕ, ◌≤◌, ◌≡◌, Bool, true, false, ◌⊎◌, ◌^◌}
use time_sensitive_packet.Base.Int.{ℤ, ◌+ℤ◌, pos_part, neg_part}

pub record FloatOps : Type 1 where
  pub Float : Type 0
  -- `float("nan")`
  pub nan : Float
  -- `float(n)`
  pub of_int : ℤ → Float
  -- The literal m / 10 ** k, rounded.
  pub decimal : ℕ → ℕ → Float
  pub plus : Float → Float → Float
  pub minus : Float → Float → Float
  pub times : Float → Float → Float
  pub over : Float → Float → Float
  pub absolute : Float → Float
  -- `a < b`, which is false where one of them is nan.
  pub lt : Float → Float → Bool
  -- `a == b`
  pub equal : Float → Float → Bool
  pub is_nan : Float → Bool
  pub is_inf : Float → Bool
  -- `int(x)` of a finite number: towards zero.
  pub truncate : Float → ℤ

-- Integers of at most 53 bits, which a double holds exactly.
abbrev pub IsExact : ℤ → Type 0
IsExact n = (pos_part n ≤ 2 ^ 53) × (neg_part n ≤ 2 ^ 53)

-- Exact integers add without rounding.
pub record ExactSums (F : FloatOps) : Type 0 where
  pub plus-of_int :
      (a b : ℤ)
      → IsExact a
      → IsExact b
      → IsExact (a +ℤ b)
      → F.plus (F.of_int a) (F.of_int b) ≡ F.of_int (a +ℤ b)

-- `<` on numbers that are not nan: a strict total preorder.
pub record FloatOrder (F : FloatOps) : Type 0 where
  pub lt_irrefl : (a : F.Float) → F.lt a a ≡ false
  pub lt_trans : (a b c : F.Float) → F.lt a b ≡ true → F.lt b c ≡ true → F.lt a c ≡ true
  pub lt_split :
      (a b c : F.Float)
      → F.is_nan b ≡ false
      → F.lt a c ≡ true
      → (F.lt a b ≡ true) ⊎ (F.lt b c ≡ true)
