-- ===== src/Stats/Compare.antt =====
-- `mann_whitney`, `compare` and `per_run_aggregate` of stats.py, for statistics that are named.
pub mod Returns
use time_sensitive_packet.Base.{
  ℕ, zero, suc, ◌-◌, Bool, true, false, ◌&&◌, not, Option, none, some, List, [], ◌∷◌, map, length,
  ltb, leb, if◌then◌else◌, Result, ok, err, map_result, ◌>>=◌,
}
use time_sensitive_packet.Base.Int.{ℤ, pos, ◌+ℤ◌}
use time_sensitive_packet.Floats.{FloatOps}
use time_sensitive_packet.Numpy.Samples.{FloatArrays}
use time_sensitive_packet.Stats.Effect.{Effect, describe_delta, cliffs_delta}
use time_sensitive_packet.Stats.Bootstrap.{
  Generator, Statistic, BootstrapCi, resolve_statistic, bootstrap_ci,
}
use Prim.Native.String.{String}

module _ (F : FloatOps) where
  -- The dict of `compare`.
  pub record Comparison : Type 0 where
    pub stat : String
    pub percentile_method : String
    pub baseline : BootstrapCi F
    pub proposed : BootstrapCi F
    pub improvement_pct : F.Float
    pub mann_whitney_u : F.Float
    pub p_value : F.Float
    pub cliffs_delta : F.Float
    pub effect : Effect
    pub n_baseline : ℕ
    pub n_proposed : ℕ

  -- The dict of `per_run_aggregate`.
  pub record Aggregate : Type 0 where
    pub stat : String
    pub n_runs : ℕ
    pub per_run : List F.Float
    pub mean : F.Float
    pub std : F.Float
    pub ci_low : F.Float
    pub ci_high : F.Float
    pub ci : F.Float

  abbrev pub improvement_of : F.Float → F.Float → F.Float
  improvement_of b p =
      if not (F.equal b (F.of_int (pos 0))) && not (F.is_nan b)
      then F.times (F.over (F.minus b p) (F.absolute b)) (F.decimal 100 0)
      else F.nan

  module _ (np : FloatArrays F) where
    abbrev pub mann_whitney : List F.Float → List F.Float → F.Float × F.Float
    mann_whitney [] b = (F.nan, F.nan)
    mann_whitney (x ∷ a) [] = (F.nan, F.nan)
    mann_whitney (x ∷ a) (y ∷ b) = np.mannwhitneyu (x ∷ a) (y ∷ b)

    -- The dict, from the two intervals.
    abbrev pub comparison_of :
        String → String → List F.Float → List F.Float → BootstrapCi F → BootstrapCi F → Comparison
    comparison_of stat method baseline proposed b p =
        let (u, p_value) = mann_whitney baseline proposed in
        let delta = cliffs_delta F np baseline proposed in
        record {
          stat = stat;
          percentile_method = method;
          baseline = b;
          proposed = p;
          improvement_pct = improvement_of b.point p.point;
          mann_whitney_u = u;
          p_value = p_value;
          cliffs_delta = delta;
          effect = describe_delta F delta;
          n_baseline = length baseline;
          n_proposed = length proposed;
        }

    -- A call that does not return leaves the whole one without a result.
    abbrev pub both_of :
        (BootstrapCi F → BootstrapCi F → Comparison)
        → Option (BootstrapCi F)
        → Option (BootstrapCi F)
        → Option Comparison
    both_of f none p = none
    both_of f (some b) none = none
    both_of f (some b) (some p) = some (f b p)

    -- The mean of the runs' statistics, with a Student-t interval from three runs on.
    unfoldable pub aggregate_of : String → F.Float → List F.Float → Aggregate
    aggregate_of stat ci per_run =
        let n = length per_run in
        let half =
          F.over
            (F.times (np.t_ppf (F.plus (F.decimal 5 1) (F.over ci (F.decimal 2 0))) (n - 1))
              (np.std per_run))
            (np.sqrt n) in
        record {
          stat = stat;
          n_runs = n;
          per_run = per_run;
          mean = if ltb 0 n then np.mean per_run else F.nan;
          std = if ltb 1 n then np.std per_run else F.nan;
          ci_low = if leb 3 n then F.minus (np.mean per_run) half else F.nan;
          ci_high = if leb 3 n then F.plus (np.mean per_run) half else F.nan;
          ci = ci;
        }

    module _ (float_of : String → Result F.Float) where
      unfoldable pub per_run_aggregate :
          List (List F.Float) → String → F.Float → String → Result Aggregate
      unfolding aggregate_of resolve_statistic
      per_run_aggregate runs_values stat ci method = do
        f ← resolve_statistic F np float_of stat method
        per_run ← map_result f runs_values
        ok (aggregate_of stat ci per_run)

      module _ (gen : Generator) where
        -- `chunk` keeps its default.
        unfoldable pub compare :
            List F.Float
            → List F.Float
            → String
            → ℤ
            → F.Float
            → ℤ
            → String
            → Result (Option Comparison)
        unfolding bootstrap_ci
        compare baseline proposed stat n_boot ci seed method = do
          b ← bootstrap_ci F np float_of gen baseline stat n_boot ci seed 200 method
          p ← bootstrap_ci F np float_of gen proposed stat n_boot ci (seed +ℤ pos 1) 200 method
          ok (both_of (comparison_of stat method baseline proposed) b p)
