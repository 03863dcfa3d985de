-- ===== src/Workload/Listener/Csv/Columns.antt =====
-- The columns of the receiver's file, as csv.DictReader gives them cell by cell.
use time_sensitive_packet.Base.{
  ◌≡◌, refl, ◌∙◌, sym, Bool, true, false, List, [], ◌∷◌, ◌++◌, map, if◌then◌else◌, ok, Text, chars,
  text_eq, str_int,
}
use time_sensitive_packet.Base.Int.{pos}
use time_sensitive_packet.Floats.{FloatOps}
use time_sensitive_packet.Loader.{add_row, add_rows, no_cells, required_columns, lacks}
use time_sensitive_packet.Loader.Numbers.{text_of}
use time_sensitive_packet.Workload.Listener.{Row}
use time_sensitive_packet.Workload.Listener.Csv.{field_names, row_dict}
use mathlib.Core.List.{append_assoc, append-nil}

-- The cells of a column after more rows.
abbrev pub add_all {ℓ} : {A : Type ℓ} → (A → Text) → List Text → List A → List Text
add_all f cells [] = cells
add_all f cells (r ∷ rows) = add_all f (cells ++ f r ∷ []) rows

pub add_all-map {ℓ} :
    {A : Type ℓ} (f : A → Text) (cells : List Text) (rows : List A)
    → add_all f cells rows ≡ cells ++ map f rows
add_all-map f cells [] = sym (append-nil cells)
add_all-map f cells (r ∷ rows) =
    add_all-map f (cells ++ f r ∷ []) rows ∙ append_assoc cells (f r ∷ []) (map f rows)

-- The columns while the file is read.
pub record Cells : Type 0 where
  pub seq : List Text
  pub send : List Text
  pub recv : List Text
  pub latency : List Text
  pub jitter : List Text
  pub size : List Text
  pub tos : List Text
  pub kernel : List Text

abbrev pub columns : Bool → Bool → Cells → List (Text × List Text)
columns record_tos kernel_ts c =
    ((chars "seq", c.seq)
      ∷ (chars "send_ns", c.send)
      ∷ (chars "recv_ns", c.recv)
      ∷ (chars "latency_ms", c.latency)
      ∷ (chars "jitter_us", c.jitter)
      ∷ (chars "pkt_size", c.size)
      ∷ [])
    ++ (if record_tos then (chars "tos", c.tos) ∷ [] else [])
    ++ (if kernel_ts then (chars "recv_kernel_ns", c.kernel) ∷ [] else [])

abbrev pub no_cells_yet : Cells
no_cells_yet = record {
  seq = [];
  send = [];
  recv = [];
  latency = [];
  jitter = [];
  size = [];
  tos = [];
  kernel = [];
}

pub field_names_complete :
    (record_tos kernel_ts : Bool)
    → lacks required_columns (field_names record_tos kernel_ts) ≡ false
field_names_complete true true = refl
field_names_complete true false = refl
field_names_complete false true = refl
field_names_complete false false = refl

pub no_cells-columns :
    (record_tos kernel_ts : Bool)
    → no_cells (field_names record_tos kernel_ts) [] ≡ columns record_tos kernel_ts no_cells_yet
no_cells-columns true true = refl
no_cells-columns true false = refl
no_cells-columns false true = refl
no_cells-columns false false = refl

module _ (F : FloatOps) (str_float : F.Float → Text) where
  -- The cells of a row.
  abbrev pub seq_text : Row F → Text
  seq_text r = str_int (pos r.seq)

  abbrev pub send_text : Row F → Text
  send_text r = str_int (pos r.send_ns)

  abbrev pub recv_text : Row F → Text
  recv_text r = str_int (pos r.recv_ns)

  abbrev pub latency_text : Row F → Text
  latency_text r = str_float r.latency_ms

  abbrev pub jitter_text : Row F → Text
  jitter_text r = str_float r.jitter_us

  abbrev pub size_text : Row F → Text
  size_text r = str_int (pos r.pkt_size)

  abbrev pub tos_text : Row F → Text
  tos_text r = text_of r.tos

  abbrev pub kernel_text : Row F → Text
  kernel_text r = text_of r.recv_kernel_ns

  abbrev pub add_cells : Cells → List (Row F) → Cells
  add_cells c rows = record {
    seq = add_all seq_text c.seq rows;
    send = add_all send_text c.send rows;
    recv = add_all recv_text c.recv rows;
    latency = add_all latency_text c.latency rows;
    jitter = add_all jitter_text c.jitter rows;
    size = add_all size_text c.size rows;
    tos = add_all tos_text c.tos rows;
    kernel = add_all kernel_text c.kernel rows;
  }

  pub add_row-columns :
      (record_tos kernel_ts : Bool) (r : Row F) (c : Cells)
      → add_row
          (field_names record_tos kernel_ts)
          (row_dict F str_float record_tos kernel_ts r)
          (columns record_tos kernel_ts c)
        ≡ ok (columns record_tos kernel_ts (add_cells c (r ∷ [])))
  unfolding add_row
  add_row-columns true true r c = refl
  add_row-columns true false r c = refl
  add_row-columns false true r c = refl
  add_row-columns false false r c = refl

  pub add_rows-columns :
      (record_tos kernel_ts : Bool) (rows : List (Row F)) (c : Cells)
      → add_rows
          (field_names record_tos kernel_ts)
          (map (row_dict F str_float record_tos kernel_ts) rows)
          (columns record_tos kernel_ts c)
        ≡ ok (columns record_tos kernel_ts (add_cells c rows))
  unfolding add_rows
  add_rows-columns record_tos kernel_ts [] c = refl
  add_rows-columns record_tos kernel_ts (r ∷ rows) c =
      rw (add_row-columns record_tos kernel_ts r c)
        (add_rows-columns record_tos kernel_ts rows (add_cells c (r ∷ [])))
