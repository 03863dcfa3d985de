-- ===== src/Numpy/Samples.antt =====
-- numpy's functions on float64 arrays, and those of scipy.stats that the analysis calls, with the
-- documented behaviour that theorems rely on. An array is the list of its elements; a function
-- along axis 1 is a function of a row.
pub mod Sorting
use time_sensitive_packet.Base.{
  ℕ, ◌≤◌, ◌≡◌, Bool, true, false, not, List, [], ◌∷◌, length, take, drop, count_if, all, Result, ok,
  Gives,
}
use Prim.Native.String.{String}
use time_sensitive_packet.Floats.{FloatOps}

module _ (F : FloatOps) where
  pub record FloatArrays : Type 0 where
    -- `np.sort(x)`
    pub sort : List F.Float → List F.Float
    -- `np.searchsorted(b, v, side="left")` and `side="right"`, for one v
    pub searchsorted_left : List F.Float → F.Float → ℕ
    pub searchsorted_right : List F.Float → F.Float → ℕ
    -- `np.percentile(x, q, method=...)`, which raises for an unknown method and for a q that is not
    -- from 0 to 100.
    pub percentile : String → F.Float → List F.Float → Result F.Float
    -- `np.mean(x)`, `np.max(x)`, `np.min(x)`, `np.std(x, ddof=1)`
    pub mean : List F.Float → F.Float
    pub largest : List F.Float → F.Float
    pub smallest : List F.Float → F.Float
    pub std : List F.Float → F.Float
    -- `np.sqrt(n)`
    pub sqrt : ℕ → F.Float
    -- `sps.mannwhitneyu(a, b, alternative="two-sided")`: the statistic and the p-value
    pub mannwhitneyu : List F.Float → List F.Float → F.Float × F.Float
    -- `sps.t.ppf(q, df=n)`
    pub t_ppf : F.Float → ℕ → F.Float

  -- A function of samples that returns unless there is no sample. For `np.percentile method q` this
  -- says that numpy knows the method, and that q is from 0 to 100.
  abbrev pub IsTotal : (List F.Float → Result F.Float) → Type 0
  IsTotal f = (x : F.Float) (xs : List F.Float) → Gives (λ v. Unit {0}) (f (x ∷ xs))

  -- No element is nan.
  abbrev pub IsNumbers : List F.Float → Type 0
  IsNumbers xs = count_if F.is_nan xs ≡ 0

  -- No element is larger than a later one.
  abbrev pub IsSorted : List F.Float → Type 0
  IsSorted [] = Unit
  IsSorted (x ∷ xs) = (all (λ y. not (F.lt y x)) xs ≡ true) × IsSorted xs

  pub record FloatArraysLaws (np : FloatArrays) : Type 0 where
    -- A sorted copy has the same elements as often.
    pub count_if-sort :
        (p : F.Float → Bool) (xs : List F.Float) → count_if p (np.sort xs) ≡ count_if p xs
    pub sort-IsSorted : (xs : List F.Float) → IsNumbers xs → IsSorted (np.sort xs)
    -- The index i with `b[i-1] < v <= b[i]`.
    pub searchsorted_left_lem :
        (b : List F.Float) (v : F.Float)
        → IsSorted b
        → IsNumbers b
        → F.is_nan v ≡ false
        → (np.searchsorted_left b v ≤ length b)
          × (all (λ y. F.lt y v) (take (np.searchsorted_left b v) b) ≡ true)
          × (all (λ y. not (F.lt y v)) (drop (np.searchsorted_left b v) b) ≡ true)
    -- The index i with `b[i-1] <= v < b[i]`.
    pub searchsorted_right_lem :
        (b : List F.Float) (v : F.Float)
        → IsSorted b
        → IsNumbers b
        → F.is_nan v ≡ false
        → (np.searchsorted_right b v ≤ length b)
          × (all (λ y. not (F.lt v y)) (take (np.searchsorted_right b v) b) ≡ true)
          × (all (λ y. F.lt v y) (drop (np.searchsorted_right b v) b) ≡ true)
