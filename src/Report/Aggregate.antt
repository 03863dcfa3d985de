-- ===== src/Report/Aggregate.antt =====
-- `_aggregate_loss` and `_aggregate_dscp` of report.py: one condition's figures over its runs.
pub mod Merged
use time_sensitive_packet.Base.{
  ℕ, suc, ◌+◌, Bool, true, false, Option, none, some, List, [], ◌∷◌, map, ltb, if◌then◌else◌,
  int_eq, lookup, insert,
}
use time_sensitive_packet.Base.Int.{ℤ, pos}
use time_sensitive_packet.Floats.{FloatOps}
use time_sensitive_packet.Numpy.{IntArrays}
use time_sensitive_packet.Metrics.Loss.{LossSummary, loss_summary}
use time_sensitive_packet.Metrics.Dscp.{Distribution, dscp_distribution}
use time_sensitive_packet.Loader.{Run}

abbrev pub or_zero : Option ℕ → ℕ
or_zero none = 0
or_zero (some n) = n

-- `merged[k] = merged.get(k, 0) + v` for the items of one run.
unfoldable pub merge : List (ℤ × ℕ) → List (ℤ × ℕ) → List (ℤ × ℕ)
merge merged [] = merged
merge merged ((k, v) ∷ items) = merge (insert k (or_zero (lookup k merged) + v) merged) items

-- `max(d, key=d.get)`: the first key with the largest value, from a first one.
abbrev pub max_key : ℤ → ℕ → List (ℤ × ℕ) → ℤ
max_key k n [] = k
max_key k n ((j, m) ∷ d) = if ltb n m then max_key j m d else max_key k n d

abbrev pub dominant_key : List (ℤ × ℕ) → Option ℤ
dominant_key [] = none
dominant_key ((k, n) ∷ d) = some (max_key k n d)

-- The items of the runs, one run after the other.
unfoldable pub merge_all : List (ℤ × ℕ) → List (List (ℤ × ℕ)) → List (ℤ × ℕ)
unfolding merge
merge_all merged [] = merged
merge_all merged (items ∷ more) = merge_all (merge merged items) more

abbrev pub sum_missing : List Distribution → ℕ
sum_missing [] = 0
sum_missing (d ∷ ds) = d.missing + sum_missing ds

-- What is returned for at least one run with TOS bytes.
unfoldable pub merged_of : List Distribution → Distribution
unfolding merge_all
merged_of per_run =
    let dscp = merge_all [] (map (λ d. d.dscp) per_run) in
    record {
      dscp = dscp;
      ecn = merge_all [] (map (λ d. d.ecn) per_run);
      tos = merge_all [] (map (λ d. d.tos) per_run);
      missing = sum_missing per_run;
      dominant_dscp = dominant_key dscp;
    }

-- The members that are there.
abbrev pub present : List (Option Distribution) → List Distribution
present [] = []
present (none ∷ ds) = present ds
present (some d ∷ ds) = d ∷ present ds

module _ (np : IntArrays) (F : FloatOps) where
  -- `sum(d[k] for d in per_run)` starts from the integer 0.
  abbrev pub float_sum : F.Float → List F.Float → F.Float
  float_sum acc [] = acc
  float_sum acc (x ∷ xs) = float_sum (F.plus acc x) xs

  unfoldable pub aggregate_loss : List (Run F) → LossSummary F
  aggregate_loss runs =
      let per_run = map (λ r. loss_summary np F r.seq) runs in
      let total =
        λ (field : LossSummary F → F.Float). float_sum (F.of_int (pos 0)) (map field per_run) in
      let expected = total (λ d. d.expected) in
      let lost = total (λ d. d.lost) in
      record {
        expected = expected;
        received = total (λ d. d.received);
        unique = total (λ d. d.unique);
        lost = lost;
        duplicates = total (λ d. d.duplicates);
        reorders = total (λ d. d.reorders);
        loss_pct =
            if F.equal expected (F.of_int (pos 0))
            then F.nan
            else F.over (F.times (F.decimal 100 0) lost) expected;
      }

  abbrev pub merged_or_none : List Distribution → Option Distribution
  merged_or_none [] = none
  merged_or_none (d ∷ ds) = some (merged_of (d ∷ ds))

  unfoldable pub aggregate_dscp : List (Run F) → Option Distribution
  unfolding merged_of
  aggregate_dscp runs = merged_or_none (present (map (λ r. dscp_distribution np r.tos) runs))
