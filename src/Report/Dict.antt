-- ===== src/Report/Dict.antt =====
-- The dict that `build_summary` of report.py returns, as a JSON value, and `to_json`.
use time_sensitive_packet.Base.{
  ℕ, Option, none, some, List, [], ◌∷◌, map, Result, Text, chars, str_int,
}
use time_sensitive_packet.Base.Int.{ℤ, pos}
use time_sensitive_packet.Floats.{FloatOps}
use time_sensitive_packet.Metrics.Loss.{LossSummary}
use time_sensitive_packet.Metrics.Dscp.{Distribution}
use time_sensitive_packet.Stats.Bootstrap.{BootstrapCi}
use time_sensitive_packet.Stats.Compare.{Comparison, Aggregate as RunAggregate}
use time_sensitive_packet.Report.{CellSummary, ComparisonRow, Summary}
use time_sensitive_packet.Report.Json.{
  Json, null, integer, number, text, list, dict, Items, no_items, item, Entries, no_entries, entry,
  sanitize_json,
}
use time_sensitive_packet.Report.Markdown.{Options, effect_text}

module _ (F : FloatOps) where
  abbrev pub items_of : List (Json F) → Items F
  items_of [] = no_items
  items_of (x ∷ xs) = item x (items_of xs)

  abbrev pub entries_of : List (Text × Json F) → Entries F
  entries_of [] = no_entries
  entries_of ((k, x) ∷ d) = entry k x (entries_of d)

  abbrev pub object : List (Text × Json F) → Json F
  object d = dict (entries_of d)

  abbrev pub array : List (Json F) → Json F
  array xs = list (items_of xs)

  abbrev pub natural : ℕ → Json F
  natural n = integer (pos n)

  -- A dict of floats, and one of counts.
  abbrev pub floats_value : List (Text × F.Float) → Json F
  floats_value d = object (map (λ e. (e.0, number e.1)) d)

  abbrev pub counts_value : List (ℤ × ℕ) → Json F
  counts_value d = object (map (λ e. (str_int e.0, natural e.1)) d)

  abbrev pub loss_value : LossSummary F → Json F
  loss_value l = floats_value (
      (chars "expected", l.expected)
      ∷ (chars "received", l.received)
      ∷ (chars "unique", l.unique)
      ∷ (chars "lost", l.lost)
      ∷ (chars "duplicates", l.duplicates)
      ∷ (chars "reorders", l.reorders)
      ∷ (chars "loss_pct", l.loss_pct)
      ∷ [])

  abbrev pub dominant_value : Option ℤ → Json F
  dominant_value none = null
  dominant_value (some n) = integer n

  abbrev pub dscp_value : Option Distribution → Json F
  dscp_value none = null
  dscp_value (some d) = object (
      (chars "dscp", counts_value d.dscp)
      ∷ (chars "ecn", counts_value d.ecn)
      ∷ (chars "tos", counts_value d.tos)
      ∷ (chars "missing", natural d.missing)
      ∷ (chars "dominant_dscp", dominant_value d.dominant_dscp)
      ∷ [])

  abbrev pub aggregate_value : RunAggregate F → Json F
  aggregate_value a = object (
      (chars "stat", text (chars a.stat))
      ∷ (chars "n_runs", natural a.n_runs)
      ∷ (chars "per_run", array (map (λ x. number x) a.per_run))
      ∷ (chars "mean", number a.mean)
      ∷ (chars "std", number a.std)
      ∷ (chars "ci_low", number a.ci_low)
      ∷ (chars "ci_high", number a.ci_high)
      ∷ (chars "ci", number a.ci)
      ∷ [])

  -- `out["per_run"]`, if it is set.
  abbrev pub per_run_entries : Option (RunAggregate F × RunAggregate F) → List (Text × Json F)
  per_run_entries none = []
  per_run_entries (some (latency, jitter)) =
      (
        chars "per_run",
        object (
            (chars "latency_p99_ms", aggregate_value latency)
            ∷ (chars "jitter_p99_us", aggregate_value jitter)
            ∷ []),
      )
      ∷ []

  abbrev pub cell_value : CellSummary F → Json F
  cell_value c = object (
      (chars "condition", text c.condition)
      ∷ (chars "runs", array (map (λ name. text name) c.runs))
      ∷ (chars "n_runs", natural c.n_runs)
      ∷ (chars "n_packets", natural c.n_packets)
      ∷ (chars "latency_ms", floats_value c.latency_ms)
      ∷ (chars "jitter_us", floats_value c.jitter_us)
      ∷ (chars "loss", loss_value c.loss)
      ∷ (chars "dscp", dscp_value c.dscp)
      ∷ per_run_entries c.per_run)

  -- `as_dict`
  abbrev pub interval_value : BootstrapCi F → Json F
  interval_value b = floats_value (
      (chars "point", b.point)
      ∷ (chars "low", b.low)
      ∷ (chars "high", b.high)
      ∷ (chars "ci", b.ci)
      ∷ (chars "n_boot", F.of_int b.n_boot)
      ∷ [])

  abbrev pub comparison_value : Comparison F → Json F
  comparison_value m = object (
      (chars "stat", text (chars m.stat))
      ∷ (chars "percentile_method", text (chars m.percentile_method))
      ∷ (chars "baseline", interval_value m.baseline)
      ∷ (chars "proposed", interval_value m.proposed)
      ∷ (chars "improvement_pct", number m.improvement_pct)
      ∷ (chars "mann_whitney_u", number m.mann_whitney_u)
      ∷ (chars "p_value", number m.p_value)
      ∷ (chars "cliffs_delta", number m.cliffs_delta)
      ∷ (chars "effect", text (effect_text m.effect))
      ∷ (chars "n_baseline", natural m.n_baseline)
      ∷ (chars "n_proposed", natural m.n_proposed)
      ∷ [])

  abbrev pub row_value : ComparisonRow F → Json F
  row_value r = object (
      (chars "condition", text r.condition)
      ∷ (chars "baseline", text r.baseline)
      ∷ (chars "metrics", object (map (λ m. (chars m.0, comparison_value m.1)) r.metrics))
      ∷ [])

  unfoldable pub summary_value : Options F → Summary F → Json F
  summary_value options s = object (
      (chars "results_dir", text options.results_dir)
      ∷ (chars "percentile_method", text (chars options.percentile_method))
      ∷ (chars "baseline", text s.baseline)
      ∷ (chars "conditions", array (map (λ c. text c) s.conditions))
      ∷ (
        chars "bootstrap",
        object (
            (chars "n_boot", integer options.n_boot)
            ∷ (chars "ci", number options.ci)
            ∷ (chars "seed", integer options.seed)
            ∷ []),
      )
      ∷ (chars "cells", array (map cell_value s.cells))
      ∷ (chars "comparisons", array (map row_value s.comparisons))
      ∷ [])

  -- `json.dumps(..., allow_nan=False)` is a parameter: it raises ValueError on nan and infinity.
  unfoldable pub to_json : (Json F → Result Text) → Options F → Summary F → Result Text
  unfolding summary_value
  to_json dumps options s = dumps (sanitize_json F (summary_value options s))
