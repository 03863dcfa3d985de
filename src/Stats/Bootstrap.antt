-- ===== src/Stats/Bootstrap.antt =====
-- The named statistics and `bootstrap_ci` of stats.py. A statistic is a function of a row; numpy's
-- generator and its `float(text)` are parameters. `none` stands for a call that does not return.
pub mod Resamples
use time_sensitive_packet.Base.{
  ℕ, zero, suc, ◌+◌, ◌-◌, Bool, true, false, Option, none, some, List, [], ◌∷◌, ◌++◌, map, length,
  get_or, ltb, if◌then◌else◌, Result, ok, err, Exception, value_error, map_result, ◌>>=◌, lower,
  str_key, Eq,
}
use time_sensitive_packet.Base.Int.{ℤ, pos, negsuc}
use time_sensitive_packet.Floats.{FloatOps}
use time_sensitive_packet.Numpy.Samples.{FloatArrays}
use Prim.Native.String.{String, len, slice}
use text.Mathlib.Text.{starts_with, ◌==◌}

-- `np.random.Generator`: `default_rng(seed)`, which raises for a negative seed, and `integers(0, high, size=(rows, columns))`.
pub record Generator : Type 1 where
  pub Rng : Type 0
  pub default_rng : ℤ → Result Rng
  pub integers : ℕ → ℕ → ℕ → Rng → List (List ℕ) × Rng

abbrev pub smaller : ℕ → ℕ → ℕ
smaller a b = if ltb b a then b else a

module _ (F : FloatOps) where
  abbrev pub Statistic : Type 0
  Statistic = List F.Float → Result F.Float

  pub record BootstrapCi : Type 0 where
    pub point : F.Float
    pub low : F.Float
    pub high : F.Float
    pub ci : F.Float
    pub n_boot : ℤ

  -- `x[indices]`; the indices are below the size.
  abbrev pub resample : List F.Float → List ℕ → List F.Float
  resample x indices = map (λ i. get_or x i F.nan) indices

  module _ (np : FloatArrays F) where
    -- A reduction that numpy does not do without elements.
    abbrev pub nonempty : (List F.Float → F.Float) → Statistic
    nonempty f [] = err value_error
    nonempty f (x ∷ xs) = ok (f (x ∷ xs))

    -- The table of the names that do not begin with "p".
    abbrev pub table : String → String → Result Statistic
    table method name =
        if name == "mean"
        then ok (λ x. ok (np.mean x))
        else (if name == "median"
            then ok (np.percentile method (F.decimal 50 0))
            else (if name == "max"
                then ok (nonempty np.largest)
                else (if name == "min"
                    then ok (nonempty np.smallest)
                    else (if name == "std" then ok (λ x. ok (np.std x)) else err value_error))))

    module _ (float_of : String → Result F.Float) where
      unfoldable pub resolve_statistic : String → String → Result Statistic
      resolve_statistic stat method =
          let name = lower stat in
          if starts_with name "p"
          then (do q ← float_of (slice name 1 (len name)); ok (np.percentile method q))
          else table method name

      module _ (gen : Generator) where
        -- The loop that fills `boots`, whose part before `done` is the list.
        unfoldable pub fill :
            List F.Float
            → Statistic
            → ℕ
            → ℕ
            → ℕ
            → ℕ
            → gen.Rng
            → List F.Float
            → Result (Option (List F.Float))
        fill x stat chunk n_boot zero done rng boots = ok none
        fill x stat chunk n_boot (suc fuel) done rng boots = elim (ltb done n_boot) [
          | false ↦ ok (some boots)
          | true ↦
              let k = smaller chunk (n_boot - done) in
              let (rows, rng') = gen.integers (length x) k (length x) rng in
              map_result (λ row. stat (resample x row)) rows >>= λ added.
              fill x stat chunk n_boot fuel (done + k) rng' (boots ++ added)
        ]

        abbrev pub alpha_of : F.Float → F.Float
        alpha_of ci = F.over (F.minus (F.decimal 1 0) ci) (F.decimal 2 0)

        -- The percentages of the ends, 100 alpha and 100 (1 - alpha).
        abbrev pub low_percentage : F.Float → F.Float
        low_percentage ci = F.times (F.decimal 100 0) (alpha_of ci)

        abbrev pub high_percentage : F.Float → F.Float
        high_percentage ci = F.times (F.decimal 100 0) (F.minus (F.decimal 1 0) (alpha_of ci))

        -- The interval of the resampled statistics.
        abbrev pub interval :
            F.Float → ℤ → F.Float → Option (List F.Float) → Result (Option BootstrapCi)
        interval ci n_boot point none = ok none
        interval ci n_boot point (some boots) = do
          low ← np.percentile "linear" (low_percentage ci) boots
          high ← np.percentile "linear" (high_percentage ci) boots
          ok (some (record { point = point; low = low; high = high; ci = ci; n_boot = n_boot }))

        abbrev pub degenerate : F.Float → F.Float → ℤ → BootstrapCi
        degenerate point ci n_boot = record {
          point = point;
          low = point;
          high = point;
          ci = ci;
          n_boot = n_boot;
        }

        -- After the point is known, by the number of resamples and the size. A round of the loop
        -- adds at least one for a positive `chunk`, so one more than `n_boot` rounds are enough.
        abbrev pub resampled :
            List F.Float → Statistic → ℤ → F.Float → ℤ → ℕ → F.Float → Result (Option BootstrapCi)
        resampled x stat (negsuc n) ci seed chunk point = ok (some (degenerate point ci (negsuc n)))
        resampled x stat (pos zero) ci seed chunk point = ok (some (degenerate point ci (pos 0)))
        resampled [] stat (pos (suc n)) ci seed chunk point =
            ok (some (degenerate point ci (pos (suc n))))
        resampled (v ∷ []) stat (pos (suc n)) ci seed chunk point =
            ok (some (degenerate point ci (pos (suc n))))
        resampled (v ∷ w ∷ x) stat (pos (suc n)) ci seed chunk point = do
          rng ← gen.default_rng seed
          boots ← fill (v ∷ w ∷ x) stat chunk (suc n) (suc (suc n)) 0 rng []
          interval ci (pos (suc n)) point boots

        unfoldable pub bootstrap_ci :
            List F.Float → String → ℤ → F.Float → ℤ → ℕ → String → Result (Option BootstrapCi)
        unfolding resolve_statistic fill
        bootstrap_ci [] statistic n_boot ci seed chunk method =
            ok (some (degenerate F.nan ci n_boot))
        bootstrap_ci (v ∷ x) statistic n_boot ci seed chunk method = do
          stat ← resolve_statistic statistic method
          point ← stat (v ∷ x)
          resampled (v ∷ x) stat n_boot ci seed chunk point
