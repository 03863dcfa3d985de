-- ===== src/Metrics/Distribution.antt =====
-- `percentile`, `distribution_summary`, `latency_summary` and `jitter_values` of metrics.py. The
-- format `{q:g}` of a percentile is a parameter.
pub mod Keys
use time_sensitive_packet.Base.{
  ℕ, suc, Bool, true, false, List, [], ◌∷◌, ◌++◌, map, length, ltb, if◌then◌else◌, Text, chars,
  text_eq, insert, Result, ok, map_result, ◌>>=◌,
}
use time_sensitive_packet.Base.Int.{ℤ, pos}
use time_sensitive_packet.Floats.{FloatOps}
use time_sensitive_packet.Numpy.Samples.{FloatArrays}
use Prim.Native.String.{String}

module _ (F : FloatOps) where
  -- `np.abs(arr[1:])`
  abbrev pub jitter_values : List F.Float → List F.Float
  jitter_values [] = []
  jitter_values (x ∷ xs) = map F.absolute xs

  abbrev pub latency_percentiles : List F.Float
  latency_percentiles = F.decimal 50 0 ∷ F.decimal 90 0 ∷ F.decimal 99 0 ∷ F.decimal 999 1 ∷ []

  module _ (np : FloatArrays F) where
    -- `percentile` of a list of percentages.
    abbrev pub percentiles_of : List F.Float → List F.Float → String → Result (List F.Float)
    percentiles_of [] qs method = ok (map (λ q. F.nan) qs)
    percentiles_of (x ∷ values) qs method = map_result (λ q. np.percentile method q (x ∷ values)) qs

    module _ (format_g : F.Float → Text) where
      abbrev pub pct_label : F.Float → Text
      pct_label q = chars "p" ++ format_g q

      -- `for q, v in zip(percentiles, pcts): out[label] = v`
      abbrev pub set_percentiles :
          List F.Float → List F.Float → List (Text × F.Float) → List (Text × F.Float)
      set_percentiles [] pcts out = out
      set_percentiles (q ∷ qs) [] out = out
      set_percentiles (q ∷ qs) (v ∷ pcts) out = set_percentiles qs pcts (insert (pct_label q) v out)

      -- The loop for a sample without elements.
      abbrev pub set_nan : List Text → List (Text × F.Float) → List (Text × F.Float)
      set_nan [] out = out
      set_nan (k ∷ keys) out = set_nan keys (insert k F.nan out)

      abbrev pub std_of : List F.Float → F.Float
      std_of [] = F.nan
      std_of (x ∷ []) = F.nan
      std_of (x ∷ y ∷ values) = np.std (x ∷ y ∷ values)

      -- The dict of a sample with elements.
      abbrev pub filled : List F.Float → List F.Float → List F.Float → List (Text × F.Float)
      filled arr qs pcts =
          let start =
            insert (chars "min") (np.smallest arr)
              (insert (chars "n") (F.of_int (pos (length arr))) []) in
          insert (chars "std") (std_of arr) (
            insert (chars "mean") (np.mean arr)
              (insert (chars "max") (np.largest arr) (set_percentiles qs pcts start)))

      unfoldable pub distribution_summary :
          List F.Float → List F.Float → String → Result (List (Text × F.Float))
      distribution_summary [] qs method = ok (
          set_nan (chars "min" ∷ map pct_label qs ++ chars "max" ∷ chars "mean" ∷ chars "std" ∷ [])
            (insert (chars "n") (F.of_int (pos 0)) []))
      distribution_summary (x ∷ xs) qs method =
          percentiles_of (x ∷ xs) qs method >>= λ pcts. ok (filled (x ∷ xs) qs pcts)

      unfoldable pub latency_summary : List F.Float → String → Result (List (Text × F.Float))
      unfolding distribution_summary
      latency_summary latency_ms method = distribution_summary latency_ms latency_percentiles method
