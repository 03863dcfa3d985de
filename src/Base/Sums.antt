-- ===== src/Base/Sums.antt =====
-- Sums, counts of the members that pass a test, and the numbers of times that distinct values occur.
use time_sensitive_packet.Base.Lists.{length, take, drop}
use time_sensitive_packet.Base.Tests.{if◌then◌else◌}
use time_sensitive_packet.Base.Int.{ℤ, pos, ◌+ℤ◌}
use time_sensitive_packet.Base.Keys.{Eq, contains, count, Distinct}
use Prim.Native.Nat.{ℕ, zero, suc, ◌+◌, ◌≤◌}
use mathlib.Core.Path.{◌≡◌, refl}
use mathlib.Core.Bool.{Bool, true, false, ◌&&◌, not}
use mathlib.Core.List.{List, [], ◌∷◌, ◌++◌}
use native.Mathlib.Omega.{arith}

abbrev pub sum : List ℕ → ℕ
sum [] = 0
sum (x ∷ xs) = x + sum xs

pub sum-append : (xs ys : List ℕ) → sum (xs ++ ys) ≡ sum xs + sum ys
sum-append [] ys = omega arith
sum-append (x ∷ xs) ys = omega (arith, sum-append xs ys)

abbrev pub sum_ints : List ℤ → ℤ
sum_ints [] = pos 0
sum_ints (x ∷ xs) = x +ℤ sum_ints xs

module _ {ℓ} {A : Type ℓ} where
  -- How many members pass a test.
  abbrev pub count_if : (A → Bool) → List A → ℕ
  count_if p [] = 0
  count_if p (x ∷ xs) = if p x then suc (count_if p xs) else count_if p xs

  abbrev pub all : (A → Bool) → List A → Bool
  all p [] = true
  all p (x ∷ xs) = p x && all p xs

  pub count_if-none :
      (p : A → Bool) (xs : List A) → all (λ x. not (p x)) xs ≡ true → count_if p xs ≡ 0
  count_if-none p [] h = refl
  count_if-none p (x ∷ xs) h = ground (arith, count_if-none p xs)

  pub count_if-all : (p : A → Bool) (xs : List A) → all p xs ≡ true → count_if p xs ≡ length xs
  count_if-all p [] h = refl
  count_if-all p (x ∷ xs) h = ground (arith, count_if-all p xs)

  pub count_if-append :
      (p : A → Bool) (xs ys : List A) → count_if p (xs ++ ys) ≡ count_if p xs + count_if p ys
  count_if-append p [] ys = omega arith
  count_if-append p (x ∷ xs) ys = ground (arith, count_if-append p xs ys)

  pub all-append :
      (p : A → Bool) (xs : List A) (y : A)
      → all p xs ≡ true
      → p y ≡ true
      → all p (xs ++ y ∷ []) ≡ true
  all-append p [] y h g = rw g refl
  all-append p (x ∷ xs) y h g = ground (arith, all-append p xs y)

  -- A list whose first i members pass the test and whose others do not.
  pub count_if-split :
      (p : A → Bool) (i : ℕ) (xs : List A)
      → i ≤ length xs
      → all p (take i xs) ≡ true
      → all (λ x. not (p x)) (drop i xs) ≡ true
      → count_if p xs ≡ i
  count_if-split p zero xs le front back = count_if-none p xs back
  count_if-split p (suc i) [] le front back = absurd (omega arith)
  count_if-split p (suc i) (x ∷ xs) le front back =
      ground (arith, count_if-split p i xs (omega arith))

  pub count_if-le : (p : A → Bool) (xs : List A) → count_if p xs ≤ length xs
  count_if-le p [] = omega arith
  count_if-le p (x ∷ xs) = ground (arith, count_if-le p xs)

  -- Two tests of which no member passes both.
  pub count_if-disjoint :
      (p q : A → Bool) (xs : List A)
      → ((x : A) → p x ≡ true → q x ≡ false)
      → count_if p xs + count_if q xs ≤ length xs
  count_if-disjoint p q [] h = omega arith
  count_if-disjoint p q (x ∷ xs) h = ground (arith, count_if-disjoint p q xs h, h x)

  pub count_if-not :
      (p : A → Bool) (xs : List A) → count_if p xs + count_if (λ x. not (p x)) xs ≡ length xs
  count_if-not p [] = refl
  count_if-not p (x ∷ xs) = ground (arith, count_if-not p xs)

  -- Where the first i members fail the test and the others pass it.
  pub count_if-rest :
      (p : A → Bool) (i : ℕ) (xs : List A)
      → i ≤ length xs
      → all (λ x. not (p x)) (take i xs) ≡ true
      → all p (drop i xs) ≡ true
      → count_if p xs + i ≡ length xs
  count_if-rest p zero [] le front back = refl
  count_if-rest p zero (x ∷ xs) le front back =
      ground (arith, count_if-rest p zero xs (omega arith) refl)
  count_if-rest p (suc i) [] le front back = absurd (omega arith)
  count_if-rest p (suc i) (x ∷ xs) le front back =
      ground (arith, count_if-rest p i xs (omega arith))

module _ {ℓ} {A : Type ℓ} ⦃e : Eq A⦄ where
  -- How often the members of `ks` stand in `xs`, together.
  abbrev pub sum_counts : List A → List A → ℕ
  sum_counts [] xs = 0
  sum_counts (k ∷ ks) xs = count k xs + sum_counts ks xs

  sum_counts-nil : (ks : List A) → sum_counts ks [] ≡ 0
  sum_counts-nil [] = refl
  sum_counts-nil (k ∷ ks) = omega (arith, sum_counts-nil ks)

  sum_counts-absent :
      (ks : List A) (x : A) (xs : List A)
      → contains x ks ≡ false
      → sum_counts ks (x ∷ xs) ≡ sum_counts ks xs
  sum_counts-absent [] x xs h = refl
  sum_counts-absent (k ∷ ks) x xs h =
      ground (arith, sum_counts-absent ks x xs, e.beq_iff k x, e.beq_iff x k)

  sum_counts-cons :
      (ks : List A) (x : A) (xs : List A)
      → Distinct ks
      → contains x ks ≡ true
      → sum_counts ks (x ∷ xs) ≡ suc (sum_counts ks xs)
  sum_counts-cons [] x xs d h = cc
  sum_counts-cons (k ∷ ks) x xs d h = ground (
    arith,
    sum_counts-cons ks x xs d.1,
    sum_counts-absent ks x xs,
    e.beq_iff k x,
    e.beq_iff x k,
    d.0,
  )

  -- Distinct values that cover a list occur as often as the list is long.
  pub sum_counts-length :
      (ks xs : List A)
      → Distinct ks
      → ((a : A) → contains a xs ≡ true → contains a ks ≡ true)
      → sum_counts ks xs ≡ length xs
  sum_counts-length ks [] d h = sum_counts-nil ks
  sum_counts-length ks (x ∷ xs) d h = omega (
    arith,
    sum_counts-cons ks x xs d (h x (ground (arith, e.beq_iff x x))),
    sum_counts-length ks xs d (λ a m. h a (ground arith)),
  )
