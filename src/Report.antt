-- ===== src/Report.antt =====
-- analysis/tsn_analysis/report.py: the summary of a results directory. `none` stands for a call
-- that does not return.
pub mod Aggregate
pub mod Dict
pub mod Json
pub mod Markdown
pub mod Totals
use time_sensitive_packet.Base.{
  ℕ, suc, Bool, true, false, not, Option, none, some, List, [], ◌∷◌, map, length, ltb,
  if◌then◌else◌, Result, ok, err, value_error, ◌>>=◌, Text, text_eq, contains, lookup, key_error,
}
use time_sensitive_packet.Base.Int.{ℤ}
use time_sensitive_packet.Floats.{FloatOps}
use time_sensitive_packet.Numpy.{IntArrays}
use time_sensitive_packet.Numpy.Samples.{FloatArrays}
use time_sensitive_packet.Metrics.Loss.{LossSummary}
use time_sensitive_packet.Metrics.Dscp.{Distribution}
use time_sensitive_packet.Metrics.Distribution.{
  jitter_values, latency_percentiles, distribution_summary, latency_summary,
}
use time_sensitive_packet.Stats.Bootstrap.{Generator}
use time_sensitive_packet.Stats.Compare.{
  Comparison, Aggregate as RunAggregate, compare, per_run_aggregate,
}
use time_sensitive_packet.Loader.{Table, Run}
use time_sensitive_packet.Dataset.{Cell, latency_ms, jitter_us, n_runs, build_dataset}
use time_sensitive_packet.Report.Aggregate.{aggregate_loss, aggregate_dscp}
use Prim.Native.String.{String}

unfoldable pub choose_baseline : List Text → Option Text → Result Text
choose_baseline conditions (some requested) =
    if contains requested conditions then ok requested else err value_error
choose_baseline [] none = err value_error
choose_baseline (c ∷ conditions) none = ok c

-- The names of a dict.
abbrev pub names_of {ℓ} : {V : Type ℓ} → List (Text × V) → List Text
names_of [] = []
names_of ((k, v) ∷ d) = k ∷ names_of d

module _ (F : FloatOps) where
  -- What `cell_summary` returns; the two aggregates are there from two runs on.
  pub record CellSummary : Type 0 where
    pub condition : Text
    pub runs : List Text
    pub n_runs : ℕ
    pub n_packets : ℕ
    pub latency_ms : List (Text × F.Float)
    pub jitter_us : List (Text × F.Float)
    pub loss : LossSummary F
    pub dscp : Option Distribution
    pub per_run : Option (RunAggregate F × RunAggregate F)

  -- A label, the samples that are compared, and the statistic.
  pub record Metric : Type 0 where
    pub label : String
    pub samples : Cell F → List F.Float
    pub stat : String

  abbrev pub latency_p50 : Metric
  latency_p50 = record { label = "latency_p50_ms"; samples = latency_ms F; stat = "p50" }

  abbrev pub latency_p99 : Metric
  latency_p99 = record { label = "latency_p99_ms"; samples = latency_ms F; stat = "p99" }

  abbrev pub jitter_p99 : Metric
  jitter_p99 = record { label = "jitter_p99_us"; samples = jitter_us F; stat = "p99" }

  abbrev pub comparison_metrics : List Metric
  comparison_metrics = latency_p50 ∷ latency_p99 ∷ jitter_p99 ∷ []

  pub record ComparisonRow : Type 0 where
    pub condition : Text
    pub baseline : Text
    pub metrics : List (String × Comparison F)

  pub record Summary : Type 0 where
    pub baseline : Text
    pub conditions : List Text
    pub cells : List CellSummary
    pub comparisons : List ComparisonRow

  module _ (ints : IntArrays) (np : FloatArrays F) (format_g : F.Float → Text)
      (float_of : String → Result F.Float) (gen : Generator) (method : String) (ci : F.Float) where
    unfoldable pub both_aggregates : Cell F → Result (Option (RunAggregate F × RunAggregate F))
    both_aggregates cell = do
      latency ← per_run_aggregate F np float_of (map (λ r. r.latency_ms) cell.runs) "p99" ci method
      jitter ←
          per_run_aggregate F np float_of (map (λ r. jitter_values F r.jitter_us) cell.runs) "p99"
            ci method
      ok (some (latency, jitter))

    -- `out["per_run"]`
    abbrev pub per_run_of : Bool → Cell F → Result (Option (RunAggregate F × RunAggregate F))
    per_run_of true cell = both_aggregates cell
    per_run_of false cell = ok none

    unfoldable pub cell_summary : Cell F → Result CellSummary
    unfolding both_aggregates
    cell_summary cell = do
      latency ← latency_summary F np format_g (latency_ms F cell) method
      jitter ← distribution_summary F np format_g (jitter_us F cell) (latency_percentiles F) method
      per_run ← per_run_of (ltb 1 (n_runs F cell)) cell
      ok (record {
        condition = cell.condition;
        runs = map (λ r. r.name) cell.runs;
        n_runs = n_runs F cell;
        n_packets = length (latency_ms F cell);
        latency_ms = latency;
        jitter_us = jitter;
        loss = aggregate_loss ints F cell.runs;
        dscp = aggregate_dscp ints F cell.runs;
        per_run = per_run;
      })

    module _ (n_boot seed : ℤ) where
      -- A result is kept only if both it and the rest are there.
      abbrev pub gather {ℓ} : {A : Type ℓ} → Option A → Option (List A) → Option (List A)
      gather none rest = none
      gather (some a) none = none
      gather (some a) (some rest) = some (a ∷ rest)

      abbrev pub labelled : String → Option (Comparison F) → Option (String × Comparison F)
      labelled label none = none
      labelled label (some c) = some (label, c)

      unfoldable pub compare_cells :
          List Metric → Cell F → Cell F → Result (Option (List (String × Comparison F)))
      compare_cells [] base other = ok (some [])
      compare_cells (m ∷ metrics) base other = do
        c ←
            compare F np float_of gen (m.samples base) (m.samples other) m.stat n_boot ci seed
              method
        rest ← compare_cells metrics base other
        ok (gather (labelled m.label c) rest)

      abbrev pub row_of : Text → Text → Option (List (String × Comparison F)) → Option ComparisonRow
      row_of base c none = none
      row_of base c (some metrics) =
          some (record { condition = c; baseline = base; metrics = metrics })

      -- The comparisons of the cells other than the baseline.
      unfoldable pub comparisons :
          Text → Cell F → List (Text × Cell F) → Result (Option (List ComparisonRow))
      unfolding compare_cells
      comparisons base base_cell [] = ok (some [])
      comparisons base base_cell ((c, cell) ∷ cells) = elim (text_eq.beq c base) [
        | true ↦ comparisons base base_cell cells
        | false ↦ (do
          metrics ← compare_cells comparison_metrics base_cell cell
          rest ← comparisons base base_cell cells
          ok (gather (row_of base c metrics) rest))
      ]

      unfoldable pub cell_summaries : List (Text × Cell F) → Result (List CellSummary)
      unfolding cell_summary
      cell_summaries [] = ok []
      cell_summaries ((c, cell) ∷ cells) = do
        first ← cell_summary cell
        rest ← cell_summaries cells
        ok (first ∷ rest)

      -- `cells[base]`
      abbrev pub cell_at : Option (Cell F) → Result (Cell F)
      cell_at none = err key_error
      cell_at (some cell) = ok cell

      abbrev pub summary_of :
          Text → List Text → List CellSummary → Option (List ComparisonRow) → Option Summary
      summary_of base names cells none = none
      summary_of base names cells (some rows) =
          some (record { baseline = base; conditions = names; cells = cells; comparisons = rows })

      -- From the cells on.
      unfoldable pub summarize : List (Text × Cell F) → Option Text → Result (Option Summary)
      unfolding cell_summaries comparisons
      summarize cells baseline = do
        base ← choose_baseline (names_of cells) baseline
        summaries ← cell_summaries cells
        base_cell ← cell_at (lookup base cells)
        rows ← comparisons base base_cell cells
        ok (summary_of base (names_of cells) summaries rows)

      unfoldable pub build_summary :
          (Text → Result F.Float) → List (Text × Table) → Option Text → Result (Option Summary)
      unfolding summarize
      build_summary cell_float files baseline = do
        cells ← build_dataset F cell_float files
        summarize cells baseline
