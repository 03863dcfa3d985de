-- ===== src/Stats/Effect.antt =====
-- `cliffs_delta` and `describe_delta` of stats.py. The elements are read as float64, and the sums
-- of int64 indices as integers without a bound.
pub mod Pairs
pub mod Labels
use time_sensitive_packet.Base.{
  ℕ, ◌+◌, ◌*◌, Bool, true, false, List, [], ◌∷◌, map, length, sum, sum_ints, if◌then◌else◌,
}
use time_sensitive_packet.Base.Int.{ℤ, pos, ◌-ℤ◌}
use time_sensitive_packet.Floats.{FloatOps}
use time_sensitive_packet.Numpy.Samples.{FloatArrays}

-- The labels, as data: "n/a", "negligible", "small", "medium", "large".
pub data Effect : Type 0 where
  not_available negligible small medium large : Effect

module _ (F : FloatOps) where
  unfoldable pub describe_delta : F.Float → Effect
  describe_delta delta =
      let d = F.absolute delta in
      if F.is_nan d
      then not_available
      else (if F.lt d (F.decimal 147 3)
          then negligible
          else (if F.lt d (F.decimal 33 2)
              then small
              else (if F.lt d (F.decimal 474 3) then medium else large)))

  module _ (np : FloatArrays F) where
    -- `b` is sorted.
    unfoldable pub dominance : List F.Float → List F.Float → ℤ
    dominance a b =
        let less = map (np.searchsorted_left b) a in
        let greater = map (λ x. pos (length b) -ℤ pos (np.searchsorted_right b x)) a in
        pos (sum less) -ℤ sum_ints greater

    -- The quotient, unless a sample is empty.
    abbrev pub delta_sorted : List F.Float → List F.Float → F.Float
    delta_sorted [] b = F.nan
    delta_sorted (x ∷ xs) [] = F.nan
    delta_sorted (x ∷ xs) (y ∷ ys) =
        F.over (F.of_int (dominance (x ∷ xs) (y ∷ ys)))
          (F.of_int (pos (length (x ∷ xs) * length (y ∷ ys))))

    unfoldable pub cliffs_delta : List F.Float → List F.Float → F.Float
    unfolding dominance
    cliffs_delta a b = delta_sorted a (np.sort b)
