-- ===== src/Loader/Columns/Aligned.antt =====
-- The lengths of a run's columns.
use mathlib.Core.Path.{subst}
use time_sensitive_packet.Base.{
  ℕ, ◌+◌, ◌≡◌, ◌<◌, refl, ap, ◌∙◌, true, false, Option, none, some, List, [], ◌∷◌, length, arith,
  Result, ok, map_result, ◌>>=◌, OnOk, OnOk-bind, OnOk-raise_if, OnOk-imp, Text, chars, text_eq,
  contains, lookup, Distinct, value_error,
}
use time_sensitive_packet.Base.Int.{ℤ}
use time_sensitive_packet.Floats.{FloatOps}
use time_sensitive_packet.Loader.{
  Table, Run, int64_array, add_rows, no_cells, column, to_int, ints, tos_column, tos_of, run_of,
  no_rows, load_csv, required_columns, lacks,
}
use time_sensitive_packet.Loader.Columns.{
  IsFilled, add_rows-IsFilled, height-no_cells, length-map_result, length-int64_array,
  column-length,
}

module _ (F : FloatOps) (float_of : Text → Result F.Float) where
  -- Every column has n cells, and `tos` too if there is one.
  pub record IsAligned (n : ℕ) (run : Run F) : Type 0 where
    pub seq : length run.seq ≡ n
    pub send_ns : length run.send_ns ≡ n
    pub recv_ns : length run.recv_ns ≡ n
    pub latency_ms : length run.latency_ms ≡ n
    pub jitter_us : length run.jitter_us ≡ n
    pub pkt_size : length run.pkt_size ≡ n
    pub tos : (tos : List ℤ) → run.tos ≡ some tos → length tos ≡ n

  length-ints : (cells : List Text) → OnOk (λ ns. length ns ≡ length cells) (ints F float_of cells)
  unfolding ints
  length-ints cells =
      OnOk-bind (λ ns. length ns ≡ length cells) (λ ns. length ns ≡ length cells)
        (map_result (to_int F float_of) cells) int64_array
        (length-map_result (to_int F float_of) cells)
        (λ ns e.
          OnOk-imp (λ ys. length ys ≡ length ns) (λ ys. length ys ≡ length cells) (int64_array ns)
            (λ ys g. g ∙ e) (length-int64_array ns))

  module _ (header : List Text) (n : ℕ) (columns : List (Text × List Text))
      (filled : IsFilled header n columns) (P : Run F → Type 0) where
    int_column :
        (c : Text) (next : List ℤ → Result (Run F))
        → contains c header ≡ true
        → ((ns : List ℤ) → length ns ≡ n → OnOk P (next ns))
        → OnOk P (column c columns >>= λ cells. ints F float_of cells >>= next)
    int_column c next there h =
        OnOk-bind (λ cells. length cells ≡ n) P (column c columns)
          (λ cells. ints F float_of cells >>= next) (column-length header n columns c filled there)
          (λ cells e.
            OnOk-bind (λ ns. length ns ≡ length cells) P (ints F float_of cells) next
              (length-ints cells) (λ ns g. h ns (g ∙ e)))

    float_column :
        (c : Text) (next : List F.Float → Result (Run F))
        → contains c header ≡ true
        → ((xs : List F.Float) → length xs ≡ n → OnOk P (next xs))
        → OnOk P (column c columns >>= λ cells. map_result float_of cells >>= next)
    float_column c next there h =
        OnOk-bind (λ cells. length cells ≡ n) P (column c columns)
          (λ cells. map_result float_of cells >>= next)
          (column-length header n columns c filled there)
          (λ cells e.
            OnOk-bind (λ xs. length xs ≡ length cells) P (map_result float_of cells) next
              (length-map_result float_of cells) (λ xs g. h xs (g ∙ e)))

  -- Absent, or of n cells.
  tos-length :
      (n : ℕ) (cells_there : Option (List Text))
      → ((cells : List Text) → cells_there ≡ some cells → length cells ≡ n)
      → OnOk
          (λ column. (tos : List ℤ) → column ≡ some tos → length tos ≡ n)
          (tos_column F float_of cells_there)
  unfolding tos_column
  tos-length n none h = λ tos e. absurd cc
  tos-length n (some cells) h =
      let AllLong =
        λ (column : Option (List ℤ)). (tos : List ℤ) → column ≡ some tos → length tos ≡ n in
      OnOk-bind (λ ns. length ns ≡ length cells) AllLong (map_result (tos_of F float_of) cells)
        (λ ns. int64_array ns >>= λ tos. ok (some tos))
        (length-map_result (tos_of F float_of) cells)
        (λ ns e.
          OnOk-bind (λ ys. length ys ≡ length ns) AllLong (int64_array ns) (λ tos. ok (some tos))
            (length-int64_array ns)
            (λ ys g tos same. let eq : tos ≡ ys = cc in ap length eq ∙ g ∙ e ∙ h cells refl))

  run_of-IsAligned :
      (stem : Text) (header : List Text) (n : ℕ) (columns : List (Text × List Text))
      → IsFilled header n columns
      → lacks required_columns header ≡ false
      → OnOk (IsAligned n) (run_of F float_of stem columns)
  unfolding run_of
  run_of-IsAligned stem header n columns filled has =
      let step = int_column header n columns filled (IsAligned n) in
      let float_step = float_column header n columns filled (IsAligned n) in
      OnOk-bind (λ column. (tos : List ℤ) → column ≡ some tos → length tos ≡ n) (IsAligned n)
        (tos_column F float_of (lookup (chars "tos") columns)) _
        (tos-length n (lookup (chars "tos") columns)
          (λ cells e. ground (arith, filled (chars "tos"))))
        (λ tos t. step (chars "seq") _ (ground arith) (λ seq e1.
          step (chars "send_ns") _ (ground arith) (λ send_ns e2.
            step (chars "recv_ns") _ (ground arith) (λ recv_ns e3.
              float_step (chars "latency_ms") _ (ground arith) (λ latency_ms e4.
                float_step (chars "jitter_us") _ (ground arith) (λ jitter_us e5.
                  step (chars "pkt_size") _ (ground arith) (λ pkt_size e6. record {
                    seq = e1;
                    send_ns = e2;
                    recv_ns = e3;
                    latency_ms = e4;
                    jitter_us = e5;
                    pkt_size = e6;
                    tos = t;
                  })))))))

  -- A table whose header names no column twice: if it loads, each column of the run, `tos` included
  -- where there is one, has as many cells as the table has rows, and the table has rows.
  pub load_csv-IsAligned :
      (stem : Text) (table : Table)
      → Distinct table.header
      → OnOk
          (λ run. IsAligned (length table.rows) run × (0 < length table.rows))
          (load_csv F float_of stem table)
  unfolding load_csv
  load_csv-IsAligned stem table dist =
      let header = table.header in
      let n = length table.rows in
      let P = λ (run : Run F). IsAligned n run × (0 < n) in
      OnOk-raise_if P (lacks required_columns header) value_error _ (λ has.
        OnOk-bind (IsFilled header (n + 0)) P (add_rows header table.rows (no_cells header [])) _
          (add_rows-IsFilled header table.rows 0 (no_cells header []) dist
            (height-no_cells header []))
          (λ columns filled.
            OnOk-bind (λ cells. length cells ≡ n + 0) P (column (chars "seq") columns) _
              (column-length header (n + 0) columns (chars "seq") filled (ground arith))
              (λ seq e. OnOk-raise_if P (no_rows F float_of seq) value_error _ (λ some_rows.
                OnOk-imp (IsAligned (n + 0)) P (run_of F float_of stem columns)
                  (λ run a.
                    (subst (λ m. IsAligned m run) (omega arith) a, some_cells seq n e some_rows))
                  (run_of-IsAligned stem header (n + 0) columns filled has)))))
    where
      some_cells :
          (seq : List Text) (n : ℕ) → length seq ≡ n + 0 → no_rows F float_of seq ≡ false → 0 < n
      some_cells [] n e h = cc
      some_cells (cell ∷ seq) n e h = omega (arith, e)
