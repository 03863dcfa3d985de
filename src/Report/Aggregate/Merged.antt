-- ===== src/Report/Aggregate/Merged.antt =====
-- The merged histograms of `_aggregate_dscp`, and the pooled TOS bytes.
use time_sensitive_packet.Base.{
  ℕ, ◌+◌, ◌≡◌, Option, none, some, List, [], ◌∷◌, ◌++◌, map, if◌then◌else◌, int_eq, beq_ℤ, count,
  lookup,
}
use time_sensitive_packet.Base.Int.{ℤ}
use time_sensitive_packet.Floats.{FloatOps}
use time_sensitive_packet.Numpy.{IntArrays, IntArraysLaws}
use time_sensitive_packet.Metrics.Dscp.{Distribution, valid, shift_2, low_2, dscp_distribution}
use time_sensitive_packet.Loader.{Run}
use time_sensitive_packet.Report.Aggregate.{or_zero, present}

-- What the items give to one key.
abbrev total : ℤ → List (ℤ × ℕ) → ℕ
total k [] = 0
total k ((j, n) ∷ items) = if beq_ℤ k j then n + total k items else total k items

abbrev total_all : ℤ → List (List (ℤ × ℕ)) → ℕ
total_all k [] = 0
total_all k (items ∷ more) = total k items + total_all k more

module _ (np : IntArrays) (laws : IntArraysLaws np) (F : FloatOps) where
  abbrev known : Option (List ℤ) → List ℤ
  known none = []
  known (some arr) = valid arr

  -- The TOS bytes of all runs that have them, one run after the other.
  abbrev pub pooled : List (Run F) → List ℤ
  pooled [] = []
  pooled (r ∷ runs) = known r.tos ++ pooled runs

  abbrev pub distributions : List (Run F) → List Distribution
  distributions runs = present (map (λ r. dscp_distribution np r.tos) runs)

  -- The entries of a merged histogram count the DSCPs, the ECN fields or the bytes of all runs.
  pub record IsPooled (runs : List (Run F)) (d : Distribution) : Type 0 where
    pub dscp_lem : (k : ℤ) → or_zero (lookup k d.dscp) ≡ count k (map shift_2 (pooled runs))
    pub ecn_lem : (k : ℤ) → or_zero (lookup k d.ecn) ≡ count k (map low_2 (pooled runs))
    pub tos_lem : (k : ℤ) → or_zero (lookup k d.tos) ≡ count k (pooled runs)
