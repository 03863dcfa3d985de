-- ===== src/Report/Markdown/Rows.antt =====
-- The rows of the tables in the report: one for each name, as wide as the header.
use time_sensitive_packet.Base.{
  AllOf, ℕ, ◌==◌, false, suc, ◌≡◌, refl, ap, ◌∙◌, sym, Option, none, some, List, [], ◌∷◌, ◌++◌, map,
  length, Gives, Text, chars, text_eq, str_nat, arith,
}
use time_sensitive_packet.Floats.{FloatOps}
use time_sensitive_packet.Stats.Effect.{Effect}
use time_sensitive_packet.Stats.Compare.{Comparison, Aggregate as RunAggregate}
use time_sensitive_packet.Report.{CellSummary, ComparisonRow}
use time_sensitive_packet.Report.Markdown.{
  Formats, effect_text, table, statistics, latency_headers, jitter_headers, loss_headers,
  run_headers, comparison_headers, concat_map, floating, fmt_signed, latency_rows, jitter_rows,
  loss_row, run_row, per_run_items, per_run_rows, comparison_row, comparison_rows,
}
use time_sensitive_packet.Report.Markdown.Tables.{
  read_rows, IsPlain, AllPlain, IsRow, table_rows, table-read_rows,
}
use time_sensitive_packet.Report.Markdown.Plain.{
  FormatsLaws, append-IsPlain, str_nat-IsPlain, effect_text-IsPlain, ◌and◌, fmt-IsPlain,
  fmt_signed-IsPlain, fmt_p-IsPlain, interval_text-IsPlain, point_text-IsPlain, dscp_text-IsPlain,
  HasFigures, fmt_all-Gives,
}
use mathlib.Core.List.{append-nil}
use Prim.Native.String.{String}

-- A row of the width of the header that begins with the name, and can be read back.
abbrev pub RowFor : List Text → Text → List Text → Type 0
RowFor headers name [] = ⊥
RowFor headers name (a ∷ cells) =
    (a ≡ name) × (length (a ∷ cells) ≡ length headers) × AllPlain (a ∷ cells)

-- One row for each name.
abbrev pub RowsFor : List Text → List Text → List (List Text) → Type 0
RowsFor headers [] [] = Unit
RowsFor headers [] (r ∷ rows) = ⊥
RowsFor headers (n ∷ names) [] = ⊥
RowsFor headers (n ∷ names) (r ∷ rows) = RowFor headers n r × RowsFor headers names rows

pub RowFor-IsRow :
    (headers : List Text) (name : Text) (row : List Text) → RowFor headers name row → IsRow row
RowFor-IsRow headers name [] h = h
RowFor-IsRow headers name (a ∷ cells) (e, w, h) = h

pub RowsFor-IsRow :
    (headers names : List Text) (rows : List (List Text))
    → RowsFor headers names rows
    → AllOf IsRow rows
RowsFor-IsRow headers [] [] h = tt
RowsFor-IsRow headers [] (r ∷ rows) h = absurd h
RowsFor-IsRow headers (n ∷ names) [] h = absurd h
RowsFor-IsRow headers (n ∷ names) (r ∷ rows) (h, hs) =
    (RowFor-IsRow headers n r h, RowsFor-IsRow headers names rows hs)

pub RowsFor-append :
    (headers ns ms : List Text) (rows more : List (List Text))
    → RowsFor headers ns rows
    → RowsFor headers ms more
    → RowsFor headers (ns ++ ms) (rows ++ more)
RowsFor-append headers [] ms [] more h g = g
RowsFor-append headers [] ms (r ∷ rows) more h g = absurd h
RowsFor-append headers (n ∷ ns) ms [] more h g = absurd h
RowsFor-append headers (n ∷ ns) ms (r ∷ rows) more (h, hs) g =
    (h, RowsFor-append headers ns ms rows more hs g)

pub read_rows-append : (as' bs : List Text) → read_rows (as' ++ bs) ≡ read_rows as' ++ read_rows bs
read_rows-append [] bs = refl
read_rows-append ([] ∷ as') bs = read_rows-append as' bs
read_rows-append ((c ∷ s) ∷ as') bs = ground (arith, read_rows-append as' bs)

-- What a reader finds in the lines.
pub record Reads (lines : List Text) (rows : List (List Text)) : Type 0 where
  pub read_lem : read_rows lines ≡ rows

pub Reads-append :
    (as' bs : List Text) (rows more : List (List Text))
    → Reads as' rows
    → Reads bs more
    → Reads (as' ++ bs) (rows ++ more)
Reads-append as' bs rows more h g = record {
  read_lem = rw (read_rows-append, h.read_lem, g.read_lem) refl;
}

pub table-Reads :
    (headers : List Text) (rows : List (List Text))
    → IsRow headers
    → AllOf IsRow rows
    → Reads (table headers rows) (table_rows headers rows)
table-Reads headers rows h hs = record {
  read_lem =
      ap read_rows (sym (append-nil (table headers rows)))
      ∙ table-read_rows headers rows [] h hs
      ∙ append-nil (table_rows headers rows);
}

-- An empty line, and one that does not begin with a bar.
pub heading-Reads :
    (c : ℕ) (s : Text) (lines : List Text) (rows : List (List Text))
    → (c == 124) ≡ false
    → Reads lines rows
    → Reads ((c ∷ s) ∷ [] ∷ lines) rows
heading-Reads c s lines rows e h = record { read_lem = rw e h.read_lem }

module _ (F : FloatOps) (formats : Formats F) (laws : FormatsLaws formats) where
  -- A cell whose name has no bar and whose two summaries have the figures.
  abbrev pub IsPrintable : CellSummary F → Type 0
  IsPrintable c =
      IsPlain c.condition
      × HasFigures F formats laws statistics c.latency_ms
      × HasFigures F formats laws statistics c.jitter_us

  -- A row of comparisons whose names have no bar.
  abbrev pub IsComparable : ComparisonRow F → Type 0
  IsComparable r = IsPlain r.condition × AllOf (λ m. IsPlain (chars m.0)) r.metrics

  pub latency_rows-Gives :
      (cells : List (CellSummary F))
      → AllOf IsPrintable cells
      → Gives
          (RowsFor latency_headers (map (λ c. c.condition) cells))
          (latency_rows F formats cells)
  unfolding latency_rows
  latency_rows-Gives [] h = ([], refl, tt)
  latency_rows-Gives (c ∷ cells) ((plain, latency, jitter), hs) =
      let (ts, e, (width, p)) = fmt_all-Gives F formats laws c.latency_ms statistics latency in
      let (rows, g, q) = latency_rows-Gives cells hs in
      (
        (c.condition ∷ str_nat c.n_runs ∷ str_nat c.n_packets ∷ ts) ∷ rows,
        rw (e, g) refl,
        (
          (
            refl,
            ap (λ n. suc (suc (suc n))) width,
            plain and str_nat-IsPlain c.n_runs and str_nat-IsPlain c.n_packets and p,
          ),
          q,
        ),
      )

  pub jitter_rows-Gives :
      (cells : List (CellSummary F))
      → AllOf IsPrintable cells
      → Gives (RowsFor jitter_headers (map (λ c. c.condition) cells)) (jitter_rows F formats cells)
  unfolding jitter_rows
  jitter_rows-Gives [] h = ([], refl, tt)
  jitter_rows-Gives (c ∷ cells) ((plain, latency, jitter), hs) =
      let (ts, e, (width, p)) = fmt_all-Gives F formats laws c.jitter_us statistics jitter in
      let (rows, g, q) = jitter_rows-Gives cells hs in
      ((c.condition ∷ ts) ∷ rows, rw (e, g) refl, ((refl, ap suc width, (plain, p)), q))

  pub loss_rows-RowsFor :
      (cells : List (CellSummary F))
      → AllOf IsPrintable cells
      → RowsFor loss_headers (map (λ c. c.condition) cells) (map (loss_row F formats) cells)
  unfolding loss_row
  loss_rows-RowsFor [] h = tt
  loss_rows-RowsFor (c ∷ cells) ((plain, latency, jitter), hs) = (
    (
      refl,
      refl,
      (plain
          and fmt-IsPlain F formats laws (floating c.loss.expected) 0
          and fmt-IsPlain F formats laws (floating c.loss.received) 0
          and fmt-IsPlain F formats laws (floating c.loss.lost) 0
          and fmt-IsPlain F formats laws (floating c.loss.loss_pct) 2
          and fmt-IsPlain F formats laws (floating c.loss.duplicates) 0
          and fmt-IsPlain F formats laws (floating c.loss.reorders) 0
          and dscp_text-IsPlain F formats laws c.dscp
          and tt),
    ),
    loss_rows-RowsFor cells hs,
  )

  pub run_row-RowFor :
      (name label : Text) (agg : RunAggregate F)
      → IsPlain name
      → IsPlain label
      → RowFor run_headers name (run_row F formats name label agg)
  unfolding run_row
  run_row-RowFor name label agg plain other = (
    refl,
    refl,
    (plain
        and other
        and str_nat-IsPlain agg.n_runs
        and fmt-IsPlain F formats laws (floating agg.mean) 2
        and fmt-IsPlain F formats laws (floating agg.std) 2
        and interval_text-IsPlain F formats laws agg.ci_low agg.ci_high
        and tt),
  )

  -- The names in the table of the runs: two rows for a condition with more than one run.
  abbrev pub run_names : Text → Option (RunAggregate F × RunAggregate F) → List Text
  run_names name none = []
  run_names name (some aggregates) = name ∷ name ∷ []

  pub per_run_items-RowsFor :
      (name : Text) (aggregates : Option (RunAggregate F × RunAggregate F))
      → IsPlain name
      → RowsFor run_headers (run_names name aggregates) (per_run_items F formats name aggregates)
  per_run_items-RowsFor name none plain = tt
  per_run_items-RowsFor name (some (latency, jitter)) plain =
      run_row-RowFor name (chars "latency_p99_ms") latency plain refl
      and run_row-RowFor name (chars "jitter_p99_us") jitter plain refl
      and tt

  pub per_run_rows-RowsFor :
      (cells : List (CellSummary F))
      → AllOf IsPrintable cells
      → RowsFor run_headers
          (concat_map (λ c. run_names c.condition c.per_run) cells)
          (per_run_rows F formats cells)
  unfolding per_run_rows
  per_run_rows-RowsFor [] h = tt
  per_run_rows-RowsFor (c ∷ cells) ((plain, latency, jitter), hs) =
      RowsFor-append run_headers (run_names c.condition c.per_run)
        (concat_map (λ c. run_names c.condition c.per_run) cells)
        (per_run_items F formats c.condition c.per_run) (per_run_rows F formats cells)
        (per_run_items-RowsFor c.condition c.per_run plain) (per_run_rows-RowsFor cells hs)

  pub effect_cell-IsPlain :
      (x : F.Float) (e : Effect)
      → IsPlain (fmt_signed F formats x ++ chars " (" ++ effect_text e ++ chars ")")
  effect_cell-IsPlain x e =
      let start = fmt_signed F formats x ++ chars " (" in
      append-IsPlain (start ++ effect_text e) (chars ")")
        (append-IsPlain start (effect_text e)
          (append-IsPlain (fmt_signed F formats x) (chars " (")
            (fmt_signed-IsPlain F formats laws x) refl)
          (effect_text-IsPlain e))
        refl

  pub comparison_row-RowFor :
      (tiny : F.Float) (name : Text) (m : String × Comparison F)
      → IsPlain name
      → IsPlain (chars m.0)
      → RowFor comparison_headers name (comparison_row F formats tiny name m)
  unfolding comparison_row
  comparison_row-RowFor tiny name (label, m) plain other = (
    refl,
    refl,
    (plain
        and other
        and point_text-IsPlain F formats laws m.baseline
        and point_text-IsPlain F formats laws m.proposed
        and append-IsPlain (fmt_signed F formats m.improvement_pct) (chars "%")
            (fmt_signed-IsPlain F formats laws m.improvement_pct) refl
        and fmt_p-IsPlain F formats laws tiny m.p_value
        and effect_cell-IsPlain m.cliffs_delta m.effect
        and tt),
  )

  pub metric_rows-RowsFor :
      (tiny : F.Float) (name : Text) (metrics : List (String × Comparison F))
      → IsPlain name
      → AllOf (λ m. IsPlain (chars m.0)) metrics
      → RowsFor comparison_headers
          (map (λ m. name) metrics)
          (map (comparison_row F formats tiny name) metrics)
  metric_rows-RowsFor tiny name [] plain hs = tt
  metric_rows-RowsFor tiny name (m ∷ metrics) plain (h, hs) =
      (comparison_row-RowFor tiny name m plain h, metric_rows-RowsFor tiny name metrics plain hs)

  pub comparison_rows-RowsFor :
      (tiny : F.Float) (rows : List (ComparisonRow F))
      → AllOf IsComparable rows
      → RowsFor comparison_headers
          (concat_map (λ r. map (λ m. r.condition) r.metrics) rows)
          (comparison_rows F formats tiny rows)
  unfolding comparison_rows
  comparison_rows-RowsFor tiny [] h = tt
  comparison_rows-RowsFor tiny (r ∷ rows) ((plain, labels), hs) =
      RowsFor-append comparison_headers (map (λ m. r.condition) r.metrics)
        (concat_map (λ r. map (λ m. r.condition) r.metrics) rows)
        (map (comparison_row F formats tiny r.condition) r.metrics)
        (comparison_rows F formats tiny rows)
        (metric_rows-RowsFor tiny r.condition r.metrics plain labels)
        (comparison_rows-RowsFor tiny rows hs)
