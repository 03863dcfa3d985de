-- ===== src/Report/Markdown.antt =====
-- `render_markdown` of report.py: the text of a summary. The formats of a float are parameters.
pub mod Built
pub mod Plain
pub mod Render
pub mod Rows
pub mod Tables
use time_sensitive_packet.Base.{
  ℕ, Bool, true, false, ◌||◌, Option, none, some, List, [], ◌∷◌, ◌++◌, map, if◌then◌else◌, Result,
  ok, err, key_error, ◌>>=◌, Text, chars, text_eq, lookup, str_nat, str_int, join,
}
use time_sensitive_packet.Base.Int.{ℤ, pos}
use time_sensitive_packet.Floats.{FloatOps}
use time_sensitive_packet.Metrics.Loss.{LossSummary}
use time_sensitive_packet.Metrics.Dscp.{Distribution}
use time_sensitive_packet.Stats.Effect.{Effect, not_available, negligible, small, medium, large}
use time_sensitive_packet.Stats.Bootstrap.{BootstrapCi}
use time_sensitive_packet.Stats.Compare.{Comparison, Aggregate as RunAggregate}
use time_sensitive_packet.Report.{CellSummary, ComparisonRow, Summary}
use Prim.Native.String.{String}

-- `f"{x:.{digits}f}"`, `f"{x:+.{digits}f}"` and `f"{x:.{digits}e}"`.
pub record Formats (F : FloatOps) : Type 0 where
  pub fixed : ℕ → F.Float → Text
  pub signed : ℕ → F.Float → Text
  pub exponent : ℕ → F.Float → Text

-- What the dict of `build_summary` repeats of the arguments.
pub record Options (F : FloatOps) : Type 0 where
  pub results_dir : Text
  pub percentile_method : String
  pub n_boot : ℤ
  pub ci : F.Float
  pub seed : ℤ

-- The label of an effect.
abbrev pub effect_text : Effect → Text
effect_text not_available = chars "n/a"
effect_text negligible = chars "negligible"
effect_text small = chars "small"
effect_text medium = chars "medium"
effect_text large = chars "large"

-- `"| " + " | ".join(r) + " |"`
abbrev pub table_line : List Text → Text
table_line cells = chars "| " ++ join (chars " | ") cells ++ chars " |"

abbrev pub rule_line : List Text → Text
rule_line headers = chars "|" ++ join (chars "|") (map (λ h. chars "---") headers) ++ chars "|"

unfoldable pub table : List Text → List (List Text) → List Text
table headers rows = (table_line headers ∷ rule_line headers ∷ map table_line rows) ++ [] ∷ []

abbrev pub statistics : List Text
statistics =
    chars "p50"
    ∷ chars "p90"
    ∷ chars "p99"
    ∷ chars "p99.9"
    ∷ chars "max"
    ∷ chars "mean"
    ∷ chars "std"
    ∷ []

abbrev pub latency_headers : List Text
latency_headers = chars "condition" ∷ chars "runs" ∷ chars "n" ∷ statistics

abbrev pub jitter_headers : List Text
jitter_headers = chars "condition" ∷ statistics

abbrev pub loss_headers : List Text
loss_headers =
    chars "condition"
    ∷ chars "expected"
    ∷ chars "received"
    ∷ chars "lost"
    ∷ chars "loss %"
    ∷ chars "dup"
    ∷ chars "reorder"
    ∷ chars "DSCP"
    ∷ []

abbrev pub run_headers : List Text
run_headers =
    chars "condition" ∷ chars "metric" ∷ chars "runs" ∷ chars "mean" ∷ chars "std" ∷ chars "CI" ∷ []

abbrev pub comparison_headers : List Text
comparison_headers =
    chars "condition"
    ∷ chars "metric"
    ∷ chars "baseline [CI]"
    ∷ chars "condition [CI]"
    ∷ chars "improvement"
    ∷ chars "p-value"
    ∷ chars "delta"
    ∷ []

-- The rows of a nested comprehension.
abbrev pub concat_map {ℓ κ} : {A : Type ℓ} {B : Type κ} → (A → List B) → List A → List B
concat_map f [] = []
concat_map f (x ∷ xs) = f x ++ concat_map f xs

module _ (F : FloatOps) where
  -- What `_fmt` is given.
  pub data Value : Type 0 where
    missing : Value
    floating : F.Float → Value
    whole : ℤ → Value

  module _ (formats : Formats F) where
    unfoldable pub fmt : Value → ℕ → Text
    fmt missing digits = chars "-"
    fmt (floating x) digits =
        if F.is_nan x || F.is_inf x then chars "nan" else formats.fixed digits x
    fmt (whole n) digits = str_int n

    unfoldable pub fmt_signed : F.Float → Text
    fmt_signed x = if F.is_nan x then chars "nan" else formats.signed 2 x

    -- `tiny` is the literal 1e-300.
    unfoldable pub fmt_p : F.Float → F.Float → Text
    fmt_p tiny p =
        if F.is_nan p
        then chars "nan"
        else (if F.lt p tiny
            then chars "<1e-300"
            else (if F.lt p (F.decimal 1 2) then formats.exponent 2 p else formats.fixed 2 p))

    -- `_fmt(x)` of a float, with the default of two digits.
    abbrev pub fmt_2 : F.Float → Text
    fmt_2 x = fmt (floating x) 2

    -- `_fmt(d[k])`
    abbrev pub fmt_found : Option F.Float → Result Text
    fmt_found none = err key_error
    fmt_found (some x) = ok (fmt_2 x)

    -- `[_fmt(d[k]) for k in cols]`
    unfoldable pub fmt_all : List (Text × F.Float) → List Text → Result (List Text)
    fmt_all d [] = ok []
    fmt_all d (k ∷ cols) = do
      first ← fmt_found (lookup k d)
      rest ← fmt_all d cols
      ok (first ∷ rest)

    unfoldable pub latency_rows : List (CellSummary F) → Result (List (List Text))
    unfolding fmt_all
    latency_rows [] = ok []
    latency_rows (c ∷ cells) = do
      figures ← fmt_all c.latency_ms statistics
      rest ← latency_rows cells
      ok ((c.condition ∷ str_nat c.n_runs ∷ str_nat c.n_packets ∷ figures) ∷ rest)

    unfoldable pub jitter_rows : List (CellSummary F) → Result (List (List Text))
    unfolding fmt_all
    jitter_rows [] = ok []
    jitter_rows (c ∷ cells) = do
      figures ← fmt_all c.jitter_us statistics
      rest ← jitter_rows cells
      ok ((c.condition ∷ figures) ∷ rest)

    abbrev pub value_of : Option ℤ → Value
    value_of none = missing
    value_of (some n) = whole n

    abbrev pub dscp_text : Option Distribution → Text
    dscp_text none = chars "-"
    dscp_text (some d) = fmt (value_of d.dominant_dscp) 2

    unfoldable pub loss_row : CellSummary F → List Text
    unfolding fmt
    loss_row c =
        c.condition
        ∷ fmt (floating c.loss.expected) 0
        ∷ fmt (floating c.loss.received) 0
        ∷ fmt (floating c.loss.lost) 0
        ∷ fmt_2 c.loss.loss_pct
        ∷ fmt (floating c.loss.duplicates) 0
        ∷ fmt (floating c.loss.reorders) 0
        ∷ dscp_text c.dscp
        ∷ []

    -- `[low, high]`
    abbrev pub interval_text : F.Float → F.Float → Text
    interval_text low high = chars "[" ++ fmt_2 low ++ chars ", " ++ fmt_2 high ++ chars "]"

    unfoldable pub run_row : Text → Text → RunAggregate F → List Text
    unfolding fmt
    run_row condition label agg =
        condition
        ∷ label
        ∷ str_nat agg.n_runs
        ∷ fmt_2 agg.mean
        ∷ fmt_2 agg.std
        ∷ interval_text agg.ci_low agg.ci_high
        ∷ []

    abbrev pub per_run_items : Text → Option (RunAggregate F × RunAggregate F) → List (List Text)
    per_run_items condition none = []
    per_run_items condition (some (latency, jitter)) =
        run_row condition (chars "latency_p99_ms") latency
        ∷ run_row condition (chars "jitter_p99_us") jitter
        ∷ []

    unfoldable pub per_run_rows : List (CellSummary F) → List (List Text)
    unfolding run_row
    per_run_rows cells = concat_map (λ c. per_run_items c.condition c.per_run) cells

    abbrev pub point_text : BootstrapCi F → Text
    point_text b = fmt_2 b.point ++ chars " " ++ interval_text b.low b.high

    unfoldable pub comparison_row : F.Float → Text → String × Comparison F → List Text
    unfolding fmt fmt_signed fmt_p
    comparison_row tiny condition (label, m) =
        condition
        ∷ chars label
        ∷ point_text m.baseline
        ∷ point_text m.proposed
        ∷ (fmt_signed m.improvement_pct ++ chars "%")
        ∷ fmt_p tiny m.p_value
        ∷ (fmt_signed m.cliffs_delta ++ chars " (" ++ effect_text m.effect ++ chars ")")
        ∷ []

    unfoldable pub comparison_rows : F.Float → List (ComparisonRow F) → List (List Text)
    unfolding comparison_row
    comparison_rows tiny rows =
        concat_map (λ r. map (comparison_row tiny r.condition) r.metrics) rows

    unfoldable pub title_lines : Options F → Summary F → List Text
    title_lines options s =
        chars "# TSN measurement summary"
        ∷ []
        ∷ (chars "- results dir: `" ++ options.results_dir ++ chars "`")
        ∷ (chars "- baseline: `" ++ s.baseline ++ chars "`")
        ∷ (chars "- conditions: " ++ join (chars ", ") s.conditions)
        ∷ (chars "- percentiles: numpy `"
            ++ chars options.percentile_method
            ++ chars "`; CIs: "
            ++ formats.fixed 0 (F.times options.ci (F.of_int (pos 100)))
            ++ chars "% percentile bootstrap, n_boot="
            ++ str_int options.n_boot
            ++ chars ", seed="
            ++ str_int options.seed)
        ∷ []
        ∷ []

    -- The table of the runs is there only if it has rows.
    abbrev pub run_lines : List (List Text) → List Text
    run_lines [] = []
    run_lines (r ∷ rows) =
        chars "## Per-run p99 (mean over runs, t-interval)" ∷ [] ∷ table run_headers (r ∷ rows)

    abbrev pub comparison_lines : Text → List (List Text) → List Text
    comparison_lines baseline rows =
        (chars "## Comparisons vs `" ++ baseline ++ chars "`")
        ∷ []
        ∷ (chars "improvement = (baseline - condition) / baseline. p: two-sided Mann-Whitney U; "
            ++ chars "delta: Cliff's delta, + when the baseline is slower. Both compare whole "
            ++ chars "distributions, so they repeat across the latency rows.")
        ∷ []
        ∷ table comparison_headers rows

    -- The lines in their order, around the rows of the five tables.
    unfoldable pub report_lines :
        Options F
        → Summary F
        → List (List Text)
        → List (List Text)
        → List (List Text)
        → List (List Text)
        → List (List Text)
        → List Text
    unfolding title_lines table
    report_lines options s latency jitter loss runs compared =
        title_lines options s
        ++ (chars "## Latency (ms)" ∷ [] ∷ table latency_headers latency)
        ++ (chars "## Jitter |dt| (us)" ∷ [] ∷ table jitter_headers jitter)
        ++ (chars "## Loss and DSCP" ∷ [] ∷ table loss_headers loss)
        ++ run_lines runs
        ++ comparison_lines s.baseline compared

    unfoldable pub render_lines : F.Float → Options F → Summary F → Result (List Text)
    unfolding latency_rows jitter_rows loss_row per_run_rows comparison_rows report_lines
    render_lines tiny options s = do
      latency ← latency_rows s.cells
      jitter ← jitter_rows s.cells
      ok (
          report_lines options s latency jitter (map loss_row s.cells) (per_run_rows s.cells)
            (comparison_rows tiny s.comparisons))

    unfoldable pub render_markdown : F.Float → Options F → Summary F → Result Text
    unfolding render_lines
    render_markdown tiny options s = do
      lines ← render_lines tiny options s
      ok (join (10 ∷ []) lines)
