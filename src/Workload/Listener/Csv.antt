-- ===== src/Workload/Listener/Csv.antt =====
-- The file that listener.py writes at the end: the dicts of the rows, and the table that
-- csv.DictReader yields for what csv.DictWriter wrote of them. `str` of a float is a parameter.
pub mod Columns
pub mod Loaded
use time_sensitive_packet.Base.{
  ℕ, Bool, true, false, Option, none, some, List, [], ◌∷◌, ◌++◌, map, if◌then◌else◌, Text, chars,
  str_int,
}
use time_sensitive_packet.Base.Int.{ℤ, pos}
use time_sensitive_packet.Floats.{FloatOps}
use time_sensitive_packet.Loader.{Table}
use time_sensitive_packet.Loader.Numbers.{text_of}
use time_sensitive_packet.Workload.Listener.{Options, Row}

-- The keys of a row's dict, which are the field names.
abbrev pub field_names : Bool → Bool → List Text
field_names record_tos kernel_ts =
    (chars "seq"
      ∷ chars "send_ns"
      ∷ chars "recv_ns"
      ∷ chars "latency_ms"
      ∷ chars "jitter_us"
      ∷ chars "pkt_size"
      ∷ [])
    ++ (if record_tos then chars "tos" ∷ [] else [])
    ++ (if kernel_ts then chars "recv_kernel_ns" ∷ [] else [])

module _ (F : FloatOps) (str_float : F.Float → Text) where
  -- A row's dict, each value as csv writes it.
  abbrev pub row_dict : Bool → Bool → Row F → List (Text × Option Text)
  row_dict record_tos kernel_ts r =
      ((chars "seq", some (str_int (pos r.seq)))
        ∷ (chars "send_ns", some (str_int (pos r.send_ns)))
        ∷ (chars "recv_ns", some (str_int (pos r.recv_ns)))
        ∷ (chars "latency_ms", some (str_float r.latency_ms))
        ∷ (chars "jitter_us", some (str_float r.jitter_us))
        ∷ (chars "pkt_size", some (str_int (pos r.pkt_size)))
        ∷ [])
      ++ (if record_tos then (chars "tos", some (text_of r.tos)) ∷ [] else [])
      ++ (if kernel_ts then (chars "recv_kernel_ns", some (text_of r.recv_kernel_ns)) ∷ [] else [])

  -- The file of rows with a first one.
  unfoldable pub saved : Options → List (Row F) → Table
  saved o rows = record {
    header = field_names o.record_tos o.kernel_ts;
    rows = map (row_dict o.record_tos o.kernel_ts) rows;
  }
