-- ===== src/Report/Markdown/Render.antt =====
-- The report of a summary that has the figures.
use time_sensitive_packet.Base.{AllOf, ◌≡◌, refl, List, [], ◌∷◌, ◌++◌, map, Gives, Text, text_eq}
use time_sensitive_packet.Floats.{FloatOps}
use time_sensitive_packet.Report.{Summary}
use time_sensitive_packet.Report.Markdown.{
  Formats, Options, latency_headers, jitter_headers, loss_headers, run_headers, comparison_headers,
  concat_map, loss_row, per_run_rows, comparison_rows, title_lines, report_lines, run_lines,
  comparison_lines, render_lines,
}
use time_sensitive_packet.Report.Markdown.Tables.{read_rows, IsRow, table_rows}
use time_sensitive_packet.Report.Markdown.Plain.{FormatsLaws, ◌and◌}
use time_sensitive_packet.Report.Markdown.Rows.{
  RowsFor, RowsFor-IsRow, Reads, Reads-append, table-Reads, heading-Reads, IsPrintable,
  IsComparable, latency_rows-Gives, jitter_rows-Gives, loss_rows-RowsFor, run_names,
  per_run_rows-RowsFor, comparison_rows-RowsFor,
}

-- The table of the runs is there only if it has rows.
abbrev pub run_table : List (List Text) → List (List Text)
run_table [] = []
run_table (r ∷ rows) = table_rows run_headers (r ∷ rows)

module _ (F : FloatOps) (formats : Formats F) (laws : FormatsLaws formats) where
  -- The five tables, as a reader of the lines finds them.
  pub record IsRendered (s : Summary F) (lines : List Text) : Type 0 where
    pub latency : List (List Text)
    pub jitter : List (List Text)
    pub loss : List (List Text)
    pub runs : List (List Text)
    pub compared : List (List Text)
    pub reads :
        read_rows lines
        ≡ table_rows latency_headers latency
          ++ table_rows jitter_headers jitter
          ++ table_rows loss_headers loss
          ++ run_table runs
          ++ table_rows comparison_headers compared
    pub latency_rows_lem : RowsFor latency_headers (map (λ c. c.condition) s.cells) latency
    pub jitter_rows_lem : RowsFor jitter_headers (map (λ c. c.condition) s.cells) jitter
    pub loss_rows_lem : RowsFor loss_headers (map (λ c. c.condition) s.cells) loss
    pub run_rows_lem :
        RowsFor run_headers
          (concat_map (λ c. run_names F formats laws c.condition c.per_run) s.cells)
          runs
    pub comparison_rows_lem :
        RowsFor comparison_headers
          (concat_map (λ r. map (λ m. r.condition) r.metrics) s.comparisons)
          compared

  run_lines-Reads :
      (rows : List (List Text))
      → AllOf IsRow rows
      → Reads (run_lines F formats rows) (run_table rows)
  run_lines-Reads [] h = record { read_lem = refl }
  run_lines-Reads (r ∷ rows) h = heading-Reads 35 _ _ _ refl (
      table-Reads run_headers (r ∷ rows) (refl and refl and refl and refl and refl and refl and tt)
        h)

  title_lines-Reads :
      (options : Options F) (s : Summary F) → Reads (title_lines F formats options s) []
  unfolding title_lines
  title_lines-Reads options s = record { read_lem = refl }

  comparison_lines-Reads :
      (baseline : Text) (rows : List (List Text))
      → AllOf IsRow rows
      → Reads (comparison_lines F formats baseline rows) (table_rows comparison_headers rows)
  comparison_lines-Reads baseline rows h = heading-Reads 35 _ _ _ refl (
      heading-Reads 105 _ _ _ refl (
        table-Reads comparison_headers rows
          (refl and refl and refl and refl and refl and refl and refl and tt) h))

  report_lines-Reads :
      (options : Options F) (s : Summary F) (latency jitter loss runs compared : List (List Text))
      → AllOf IsRow latency
      → AllOf IsRow jitter
      → AllOf IsRow loss
      → AllOf IsRow runs
      → AllOf IsRow compared
      → Reads (report_lines F formats options s latency jitter loss runs compared) (
          table_rows latency_headers latency
          ++ table_rows jitter_headers jitter
          ++ table_rows loss_headers loss
          ++ run_table runs
          ++ table_rows comparison_headers compared)
  unfolding report_lines
  report_lines-Reads options s latency jitter loss runs compared l j d r c =
      let figures = refl and refl and refl and refl and refl and refl and refl and tt in
      Reads-append _ _ _ _
        (Reads-append _ _ _ _
          (Reads-append _ _ _ _
            (Reads-append _ _ _ _
              (Reads-append _ _ _ _ (title_lines-Reads options s) (
                heading-Reads 35 _ _ _ refl
                  (table-Reads latency_headers latency (refl and refl and refl and figures) l)))
              (heading-Reads 35 _ _ _ refl
                (table-Reads jitter_headers jitter (refl and figures) j)))
            (heading-Reads 35 _ _ _ refl (table-Reads loss_headers loss (refl and figures) d)))
          (run_lines-Reads runs r))
        (comparison_lines-Reads s.baseline compared c)

  pub render_lines-IsRendered :
      (tiny : F.Float) (options : Options F) (s : Summary F)
      → AllOf (IsPrintable F formats laws) s.cells
      → AllOf (IsComparable F formats laws) s.comparisons
      → Gives (IsRendered s) (render_lines F formats tiny options s)
  unfolding render_lines
  render_lines-IsRendered tiny options s cells rows =
      let (latency, e, l) = latency_rows-Gives F formats laws s.cells cells in
      let (jitter, g, j) = jitter_rows-Gives F formats laws s.cells cells in
      let loss = loss_rows-RowsFor F formats laws s.cells cells in
      let runs = per_run_rows-RowsFor F formats laws s.cells cells in
      let compared = comparison_rows-RowsFor F formats laws tiny s.comparisons rows in
      (
        report_lines F formats options s latency jitter (map (loss_row F formats) s.cells)
            (per_run_rows F formats s.cells) (comparison_rows F formats tiny s.comparisons),
        rw (e, g) refl,
        record {
          latency = latency;
          jitter = jitter;
          loss = map (loss_row F formats) s.cells;
          runs = per_run_rows F formats s.cells;
          compared = comparison_rows F formats tiny s.comparisons;
          reads =
              (report_lines-Reads options s latency jitter (map (loss_row F formats) s.cells)
                (per_run_rows F formats s.cells) (comparison_rows F formats tiny s.comparisons)
                (RowsFor-IsRow latency_headers _ latency l)
                (RowsFor-IsRow jitter_headers _ jitter j) (RowsFor-IsRow loss_headers _ _ loss)
                (RowsFor-IsRow run_headers _ _ runs)
                (RowsFor-IsRow comparison_headers _ _ compared)).read_lem;
          latency_rows_lem = l;
          jitter_rows_lem = j;
          loss_rows_lem = loss;
          run_rows_lem = runs;
          comparison_rows_lem = compared;
        },
      )
