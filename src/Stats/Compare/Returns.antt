-- ===== src/Stats/Compare/Returns.antt =====
-- The calls of `bootstrap_ci` by `compare`.
use time_sensitive_packet.Base.{
  ℕ, zero, suc, ◌+◌, ◌≡◌, sym, refl, some, List, [], ◌∷◌, arith, Result, ok,
}
use time_sensitive_packet.Base.Int.{ℤ, pos, negsuc, ◌+ℤ◌, int_laws}
use time_sensitive_packet.Floats.{FloatOps}
use time_sensitive_packet.Numpy.Samples.{FloatArrays, IsTotal}
use time_sensitive_packet.Stats.Bootstrap.{
  Generator, Statistic, BootstrapCi, resolve_statistic, bootstrap_ci, degenerate,
}
use time_sensitive_packet.Stats.Bootstrap.Resamples.{
  IsSeed, IsConfidence, GeneratorLaws, bootstrap_ci-resamples,
}
use time_sensitive_packet.Stats.Compare.{Comparison, improvement_of, comparison_of, compare}
use mathlib.Core.Path.{subst}
use Prim.Native.String.{String}

module _ (F : FloatOps) (np : FloatArrays F) (float_of : String → Result F.Float) (gen : Generator)
    (laws : GeneratorLaws gen) where
  -- The point of an interval: nan for an empty sample.
  abbrev pub point_of : Statistic F → List F.Float → Result F.Float
  point_of stat [] = ok F.nan
  point_of stat (x ∷ xs) = stat (x ∷ xs)

  bootstrap_ci-point :
      (x : List F.Float) (name method : String) (n_boot : ℤ) (ci : F.Float) (seed : ℤ)
      (stat : Statistic F)
      → IsSeed seed
      → IsConfidence F np float_of gen laws ci
      → resolve_statistic F np float_of name method ≡ ok stat
      → IsTotal F stat
      → (c : BootstrapCi F) × (bootstrap_ci F np float_of gen x name n_boot ci seed 200 method
          ≡ ok (some c))
        × (point_of stat x ≡ ok c.point)
  unfolding bootstrap_ci
  bootstrap_ci-point [] name method n_boot ci seed stat seeded conf h returns = (_, refl, refl)
  bootstrap_ci-point (v ∷ x) name method (negsuc n) ci seed stat seeded conf h returns =
      let (point, e, t) = returns v x in
      (degenerate F np float_of gen point ci (negsuc n), rw (h, e) refl, e)
  bootstrap_ci-point (v ∷ x) name method (pos zero) ci seed stat seeded conf h returns =
      let (point, e, t) = returns v x in
      (degenerate F np float_of gen point ci (pos 0), rw (h, e) refl, e)
  bootstrap_ci-point (v ∷ []) name method (pos (suc n)) ci seed stat seeded conf h returns =
      let (point, e, t) = returns v [] in
      (degenerate F np float_of gen point ci (pos (suc n)), rw (h, e) refl, e)
  bootstrap_ci-point (v ∷ w ∷ x) name method (pos (suc n)) ci seed stat seeded conf h returns =
      let (c, boots, e, is) =
        bootstrap_ci-resamples F np float_of gen laws v w x name method n ci seed 200 stat
          (omega arith) seeded conf h returns in
      (c, e, is.point_lem)

  plus_pos : (n : ℕ) → pos n +ℤ pos 1 ≡ pos (n + 1)
  plus_pos n = grind int_laws

  next-IsSeed : (seed : ℤ) → IsSeed seed → IsSeed (seed +ℤ pos 1)
  next-IsSeed (pos n) h = subst IsSeed (sym (plus_pos n)) tt
  next-IsSeed (negsuc n) h = absurd h

  pub compare-returns :
      (baseline proposed : List F.Float) (name method : String) (n_boot : ℤ) (ci : F.Float)
      (seed : ℤ) (stat : Statistic F)
      → IsSeed seed
      → IsConfidence F np float_of gen laws ci
      → resolve_statistic F np float_of name method ≡ ok stat
      → IsTotal F stat
      → (c : Comparison F) × (compare F np float_of gen baseline proposed name n_boot ci seed method
          ≡ ok (some c))
        × (point_of stat baseline ≡ ok c.baseline.point)
        × (point_of stat proposed ≡ ok c.proposed.point)
        × (c.improvement_pct ≡ improvement_of F c.baseline.point c.proposed.point)
  unfolding compare
  compare-returns baseline proposed name method n_boot ci seed stat seeded conf h returns =
      let (b, eb, pb) =
        bootstrap_ci-point baseline name method n_boot ci seed stat seeded conf h returns in
      let (p, ep, pp) =
        bootstrap_ci-point proposed name method n_boot ci (seed +ℤ pos 1) stat
          (next-IsSeed seed seeded) conf h returns in
      (comparison_of F np name method baseline proposed b p, rw (eb, ep) refl, pb, pp, refl)
