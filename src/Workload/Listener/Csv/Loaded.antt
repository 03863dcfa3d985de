-- ===== src/Workload/Listener/Csv/Loaded.antt =====
-- The receiver's file, read by the analysis.
use time_sensitive_packet.Base.{
  ◌≡◌, refl, ap, ◌∙◌, Bool, true, false, Option, none, some, List, [], ◌∷◌, map, AllOf, AllOf-imp,
  map_result-map, Result, ok, map_result, Text, chars, text_eq, str_int,
}
use time_sensitive_packet.Base.Int.{ℤ, pos}
use time_sensitive_packet.Floats.{FloatOps}
use time_sensitive_packet.Loader.{
  Table, Run, add_rows, no_cells, column, required_columns, lacks, tos_column, no_rows, ints,
  run_of, load_csv, parse_name,
}
use time_sensitive_packet.Loader.Numbers.{Fits, tos_value, ints-map, tos_column-map}
use time_sensitive_packet.Workload.Listener.{Options, Row}
use time_sensitive_packet.Workload.Listener.Csv.{field_names, row_dict, saved}
use time_sensitive_packet.Workload.Listener.Csv.Columns.{
  add_all, add_all-map, Cells, columns, no_cells_yet, field_names_complete, no_cells-columns,
  seq_text, tos_text, add_cells, add_rows-columns,
}

module _ (F : FloatOps) (str_float : F.Float → Text) where
  module _ (cell_float : Text → Result F.Float)
      (reads : (x : F.Float) → cell_float (str_float x) ≡ ok x) where
    -- The numbers of a row fit an int64.
    abbrev pub RowFits : Row F → Type 0
    RowFits r =
        Fits (pos r.seq)
        × Fits (pos r.send_ns)
        × Fits (pos r.recv_ns)
        × Fits (pos r.pkt_size)
        × Fits (tos_value r.tos)

    abbrev pub tos_column_of : Bool → List (Row F) → Option (List ℤ)
    tos_column_of true rows = some (map (λ r. tos_value r.tos) rows)
    tos_column_of false rows = none

    -- The columns of the rows.
    abbrev pub run_from : Bool → Text → List (Row F) → Run F
    run_from record_tos stem rows = record {
      name = stem;
      condition = (parse_name stem).0;
      run_index = (parse_name stem).1;
      seq = map (λ r. pos r.seq) rows;
      send_ns = map (λ r. pos r.send_ns) rows;
      recv_ns = map (λ r. pos r.recv_ns) rows;
      latency_ms = map (λ r. r.latency_ms) rows;
      jitter_us = map (λ r. r.jitter_us) rows;
      pkt_size = map (λ r. pos r.pkt_size) rows;
      tos = tos_column_of record_tos rows;
    }

    -- The columns are read as the run, if each column is.
    run_of-columns :
        (record_tos kernel_ts : Bool) (stem : Text) (rows : List (Row F)) (c : Cells)
        → ints F cell_float c.seq ≡ ok (map (λ r. pos r.seq) rows)
        → ints F cell_float c.send ≡ ok (map (λ r. pos r.send_ns) rows)
        → ints F cell_float c.recv ≡ ok (map (λ r. pos r.recv_ns) rows)
        → map_result cell_float c.latency ≡ ok (map (λ r. r.latency_ms) rows)
        → map_result cell_float c.jitter ≡ ok (map (λ r. r.jitter_us) rows)
        → ints F cell_float c.size ≡ ok (map (λ r. pos r.pkt_size) rows)
        → tos_column F cell_float (some c.tos) ≡ ok (some (map (λ r. tos_value r.tos) rows))
        → run_of F cell_float stem (columns record_tos kernel_ts c)
          ≡ ok (run_from record_tos stem rows)
    unfolding run_of
    run_of-columns true true stem rows c s n v l j z t = rw (t, s, n, v, l, j, z) refl
    run_of-columns true false stem rows c s n v l j z t = rw (t, s, n, v, l, j, z) refl
    run_of-columns false true stem rows c s n v l j z t = rw (s, n, v, l, j, z) refl
    run_of-columns false false stem rows c s n v l j z t = rw (s, n, v, l, j, z) refl

    ints-added :
        (f : Row F → ℤ) (rows : List (Row F))
        → ((r : Row F) → RowFits r → Fits (f r))
        → AllOf RowFits rows
        → ints F cell_float (add_all (λ r. str_int (f r)) [] rows) ≡ ok (map f rows)
    ints-added f rows fit fits =
        ap (ints F cell_float) (add_all-map (λ r. str_int (f r)) [] rows)
        ∙ ints-map F cell_float f rows (AllOf-imp RowFits (λ r. Fits (f r)) rows fit fits)

    floats-added :
        (f : Row F → F.Float) (rows : List (Row F))
        → map_result cell_float (add_all (λ r. str_float (f r)) [] rows) ≡ ok (map f rows)
    floats-added f rows =
        ap (map_result cell_float) (add_all-map (λ r. str_float (f r)) [] rows)
        ∙ map_result-map cell_float (λ r. str_float (f r)) f rows (λ r. reads (f r))

    tos-added :
        (rows : List (Row F))
        → AllOf RowFits rows
        → tos_column F cell_float (some (add_all (tos_text F str_float) [] rows))
          ≡ ok (some (map (λ r. tos_value r.tos) rows))
    tos-added rows fits =
        ap (λ cells. tos_column F cell_float (some cells))
          (add_all-map (tos_text F str_float) [] rows)
        ∙ tos_column-map F cell_float (λ r. r.tos) rows
            (AllOf-imp RowFits (λ r. Fits (tos_value r.tos)) rows (λ r h. h.4) fits)

    all_columns :
        (record_tos kernel_ts : Bool) (stem : Text) (rows : List (Row F))
        → AllOf RowFits rows
        → run_of F cell_float stem
            (columns record_tos kernel_ts (add_cells F str_float no_cells_yet rows))
          ≡ ok (run_from record_tos stem rows)
    all_columns record_tos kernel_ts stem rows fits =
        run_of-columns record_tos kernel_ts stem rows (add_cells F str_float no_cells_yet rows)
          (ints-added (λ r. pos r.seq) rows (λ r h. h.0) fits)
          (ints-added (λ r. pos r.send_ns) rows (λ r h. h.1) fits)
          (ints-added (λ r. pos r.recv_ns) rows (λ r h. h.2) fits)
          (floats-added (λ r. r.latency_ms) rows) (floats-added (λ r. r.jitter_us) rows)
          (ints-added (λ r. pos r.pkt_size) rows (λ r h. h.3) fits) (tos-added rows fits)

    load_csv-known :
        (stem : Text) (t : Table) (columns : List (Text × List Text)) (cells : List Text)
        → lacks required_columns t.header ≡ false
        → add_rows t.header t.rows (no_cells t.header []) ≡ ok columns
        → column (chars "seq") columns ≡ ok cells
        → no_rows F cell_float cells ≡ false
        → load_csv F cell_float stem t ≡ run_of F cell_float stem columns
    unfolding load_csv
    load_csv-known stem t columns cells complete read seq nonempty =
        rw (complete, read, seq, nonempty) refl

    -- The file of the receiver, whatever the options, is read back by the analysis: if it has a row,
    -- the numbers fit an int64, and reading the text of a float gives the float, then loading the
    -- file returns the run whose columns are those of the rows, in their order. It has the column tos
    -- exactly if the receiver recorded it, with -1 where it had none.
    pub saved-load_csv :
        (o : Options) (stem : Text) (r : Row F) (rows : List (Row F))
        → AllOf RowFits (r ∷ rows)
        → load_csv F cell_float stem (saved F str_float o (r ∷ rows))
          ≡ ok (run_from o.record_tos stem (r ∷ rows))
    unfolding saved
    saved-load_csv o stem r rows fits =
        let cells = add_cells F str_float no_cells_yet (r ∷ rows) in
        load_csv-known stem
          (record {
            header = field_names o.record_tos o.kernel_ts;
            rows = map (row_dict F str_float o.record_tos o.kernel_ts) (r ∷ rows);
          })
          (columns o.record_tos o.kernel_ts cells) cells.seq
          (field_names_complete o.record_tos o.kernel_ts)
          (ap
              (add_rows (field_names o.record_tos o.kernel_ts)
                (map (row_dict F str_float o.record_tos o.kernel_ts) (r ∷ rows)))
              (no_cells-columns o.record_tos o.kernel_ts)
            ∙ add_rows-columns F str_float o.record_tos o.kernel_ts (r ∷ rows) no_cells_yet)
          refl (ap (no_rows F cell_float) (add_all-map (seq_text F str_float) [] (r ∷ rows)))
        ∙ all_columns o.record_tos o.kernel_ts stem (r ∷ rows) fits
