-- ===== src/Numpy.antt =====
-- What the analysis calls of numpy and scipy, as an interface. An array is the list of its
-- elements; indexing, slicing, masks and elementwise operators are written out where they are used,
-- and the named functions below are parameters. Their documented behaviour stands in the records
-- after the operations.
pub mod Samples
pub mod Plain
pub mod Laws
use time_sensitive_packet.Base.{
  ℕ, ◌≤◌, ◌<◌, ◌≡◌, true, List, [], ◌∷◌, map, int_eq, contains, count, Distinct, length, get_or,
  if◌then◌else◌,
}
use time_sensitive_packet.Base.Int.{ℤ, ltb_ℤ, ◌≤ℤ◌}

-- Functions on int64 arrays.
pub record IntArrays : Type 0 where
  -- `arr.max()`
  pub int_max : List ℤ → ℤ
  -- `np.unique(arr)`
  pub unique : List ℤ → List ℤ
  -- `np.unique(arr, return_counts=True)`
  pub unique_counts : List ℤ → List (ℤ × ℕ)
  -- `np.maximum.accumulate(arr)`
  pub accumulate_max : List ℤ → List ℤ
  -- `np.argmax(counts)`
  pub argmax : List ℕ → ℕ

-- The running maximum as the reference manual defines it: r[i] = max(r[i-1], a[i]).
abbrev pub running_max : ℤ → List ℤ → List ℤ
running_max m [] = m ∷ []
running_max m (x ∷ xs) = m ∷ running_max (if ltb_ℤ m x then x else m) xs

-- `x` is smaller than every member of a list.
abbrev pub IsBelowAll : ℤ → List ℤ → Type 0
IsBelowAll x [] = Unit
IsBelowAll x (y ∷ ys) = (ltb_ℤ x y ≡ true) × IsBelowAll x ys

-- Strictly ascending.
abbrev pub IsAscending : List ℤ → Type 0
IsAscending [] = Unit
IsAscending (x ∷ xs) = IsBelowAll x xs × IsAscending xs

pub record IntArraysLaws (np : IntArrays) : Type 0 where
  pub contains-int_max : (x : ℤ) (xs : List ℤ) → contains (np.int_max (x ∷ xs)) (x ∷ xs) ≡ true
  pub le-int_max : (x : ℤ) (xs : List ℤ) → contains x xs ≡ true → x ≤ℤ np.int_max xs
  pub unique-IsAscending : (xs : List ℤ) → IsAscending (np.unique xs)
  pub contains-unique : (x : ℤ) (xs : List ℤ) → contains x (np.unique xs) ≡ contains x xs
  pub unique_counts_lem :
      (xs : List ℤ) → np.unique_counts xs ≡ map (λ k. (k, count k xs)) (np.unique xs)
  pub accumulate_max_lem : (x : ℤ) (xs : List ℤ) → np.accumulate_max (x ∷ xs) ≡ running_max x xs
  -- The index of a largest element, and of the first one.
  pub argmax-lt : (x : ℕ) (xs : List ℕ) → np.argmax (x ∷ xs) < length (x ∷ xs)
  pub argmax-max :
      (xs : List ℕ) (i : ℕ) → i < length xs → get_or xs i 0 ≤ get_or xs (np.argmax xs) 0
  pub argmax-first :
      (xs : List ℕ) (i : ℕ) → i < np.argmax xs → get_or xs i 0 < get_or xs (np.argmax xs) 0
