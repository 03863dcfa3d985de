-- ===== src/Metrics/Loss/Missing.antt =====
-- The sequence numbers 0, 1, … below a bound that a run received or missed, counted one by one.
use time_sensitive_packet.Base.{
  ℕ, zero, suc, ◌+◌, ◌≡◌, refl, Bool, true, false, ◌&&◌, List, [], ◌∷◌, length, ltb, if◌then◌else◌,
  arith, int_eq, beq_ℤ_iff, contains, Distinct, dedup, length-dedup_of_Distinct,
}
use time_sensitive_packet.Base.Int.{ℤ, pos, negsuc}

-- The numbers below `n` that stand in `xs`.
abbrev pub present_below : ℕ → List ℤ → List ℤ
present_below zero xs = []
present_below (suc n) xs =
    if contains (pos n) xs then pos n ∷ present_below n xs else present_below n xs

-- How many numbers below `n` do not stand in `xs`.
abbrev pub missing_below : ℕ → List ℤ → ℕ
missing_below zero xs = 0
missing_below (suc n) xs =
    if contains (pos n) xs then missing_below n xs else suc (missing_below n xs)

-- `x` is one of 0, …, n - 1.
abbrev pub below : ℕ → ℤ → Bool
below n (pos k) = ltb k n
below n (negsuc k) = false

present-missing : (n : ℕ) (xs : List ℤ) → length (present_below n xs) + missing_below n xs ≡ n
present-missing zero xs = refl
present-missing (suc n) xs = ground (arith, present-missing n xs)

contains-present_below :
    (x : ℤ) (n : ℕ) (xs : List ℤ) → contains x (present_below n xs) ≡ (below n x && contains x xs)
contains-present_below (pos k) zero xs = ground arith
contains-present_below (negsuc k) zero xs = refl
contains-present_below (pos k) (suc n) xs =
    ground (arith, contains-present_below (pos k) n xs, beq_ℤ_iff (pos k) (pos n))
contains-present_below (negsuc k) (suc n) xs =
    ground (arith, contains-present_below (negsuc k) n xs)

present_below-Distinct : (n : ℕ) (xs : List ℤ) → Distinct (present_below n xs)
present_below-Distinct zero xs = tt
present_below-Distinct (suc n) xs =
    ground (arith, present_below-Distinct n xs, contains-present_below (pos n) n xs)

-- Of a list whose members lie in 0, …, n - 1, the distinct members and the missing numbers are n.
pub distinct-missing :
    (n : ℕ) (xs : List ℤ)
    → ((x : ℤ) → contains x xs ≡ true → below n x ≡ true)
    → length (dedup xs) + missing_below n xs ≡ n
distinct-missing n xs h = omega (
  arith,
  present-missing n xs,
  length-dedup_of_Distinct (present_below n xs) xs (present_below-Distinct n xs)
      (λ x. ground (arith, contains-present_below x n xs, h x)),
)
