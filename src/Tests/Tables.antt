-- ===== src/Tests/Tables.antt =====
-- A results directory with two small files, from the tables to the dataset.
use time_sensitive_packet.Base.{
  if◌then◌else◌, ◌<◌, ◌≡◌, refl, Option, none, some, List, [], ◌∷◌, ◌++◌, Result, ok, err,
  value_error, Gives, OnOk, Text, chars, text_eq, isdigit, digits_from,
}
use time_sensitive_packet.Base.Int.{pos, negsuc}
use time_sensitive_packet.Floats.{FloatOps}
use time_sensitive_packet.Floats.Plain.{Number, number, plain_floats}
use time_sensitive_packet.Numpy.Samples.Sorting.{sorting_arrays}
use time_sensitive_packet.Metrics.Distribution.{distribution_summary}
use time_sensitive_packet.Metrics.Distribution.Keys.{keys_of, with_keys, distribution_summary-keys}
use time_sensitive_packet.Loader.{
  Table, Run, parse_name, match_suffix, to_int, load_csv, add_row, add_rows, run_of, ints,
  tos_column, discover,
}
use time_sensitive_packet.Loader.Names.{suffix, parse_name-suffix}
use time_sensitive_packet.Loader.Columns.Aligned.{IsAligned, load_csv-IsAligned}
use time_sensitive_packet.Loader.Groups.{IsDiscovered, discover-IsDiscovered}

abbrev F : FloatOps
F = plain_floats

abbrev float_of : Text → Result Number
float_of s = if isdigit s then ok (number (pos (digits_from 0 s))) else err value_error

parse_name-suffix_example :
    parse_name (chars "prio_run1" ++ suffix (chars "07")) ≡ (chars "prio_run1", some 7)
parse_name-suffix_example = parse_name-suffix 112 (chars "rio_run1") (chars "07") refl

no_number : parse_name (chars "fifo_run") ≡ (chars "fifo_run", none)
unfolding parse_name match_suffix
no_number = refl

abbrev header : List Text
header =
    chars "seq"
    ∷ chars "send_ns"
    ∷ chars "recv_ns"
    ∷ chars "latency_ms"
    ∷ chars "jitter_us"
    ∷ chars "pkt_size"
    ∷ chars "tos"
    ∷ []

abbrev row : Text → Text → Option Text → List (Text × Option Text)
row seq latency tos =
    (chars "seq", some seq)
    ∷ (chars "send_ns", some (chars " 100 "))
    ∷ (chars "recv_ns", some (chars "+200"))
    ∷ (chars "latency_ms", some latency)
    ∷ (chars "jitter_us", some (chars "3"))
    ∷ (chars "pkt_size", some (chars "128"))
    ∷ (chars "tos", tos)
    ∷ []

abbrev pub table : Table
table = record {
  header = header;
  rows = row (chars "0") (chars "5") (some (chars "184")) ∷ row (chars "2") (chars "6") none ∷ [];
}

abbrev run : Run F
run = record {
  name = chars "fifo_run2";
  condition = chars "fifo";
  run_index = some 2;
  seq = pos 0 ∷ pos 2 ∷ [];
  send_ns = pos 100 ∷ pos 100 ∷ [];
  recv_ns = pos 200 ∷ pos 200 ∷ [];
  latency_ms = number (pos 5) ∷ number (pos 6) ∷ [];
  jitter_us = number (pos 3) ∷ number (pos 3) ∷ [];
  pkt_size = pos 128 ∷ pos 128 ∷ [];
  tos = some (pos 184 ∷ negsuc 0 ∷ []);
}

loads : load_csv F float_of (chars "fifo_run2") table ≡ ok run
unfolding load_csv add_rows add_row run_of ints to_int tos_column parse_name match_suffix
loads = refl

load_csv-IsAligned_example :
    OnOk
      (λ run. IsAligned F float_of 2 run × (0 < 2))
      (load_csv F float_of (chars "fifo_run2") table)
load_csv-IsAligned_example =
    load_csv-IsAligned F float_of (chars "fifo_run2") table
      (refl, (refl, (refl, (refl, (refl, (refl, (refl, tt)))))))

abbrev files : List (Text × Table)
files = (chars "a", table) ∷ (chars "fifo_run2", table) ∷ (chars "fifo_run1", table) ∷ []

discover-IsDiscovered_example : OnOk (IsDiscovered F float_of files) (discover F float_of files)
discover-IsDiscovered_example = discover-IsDiscovered F float_of files

abbrev groups : List (Text × List (Run F))
groups = (chars "a", run ∷ []) ∷ (chars "prio_clsf", run ∷ []) ∷ (chars "fifo", run ∷ run ∷ []) ∷ []

distribution_summary-keys_example :
    Gives
      (λ d.
        keys_of d
        ≡ with_keys
            (chars "n" ∷ chars "min" ∷ chars "p99" ∷ chars "max" ∷ chars "mean" ∷ chars "std" ∷ [])
            [])
      (distribution_summary F
        (sorting_arrays F)
        (λ q. chars "99")
        (number (pos 4) ∷ [])
        (number (pos 99) ∷ [])
        "linear")
distribution_summary-keys_example =
    distribution_summary-keys F (sorting_arrays F) (λ q. chars "99") (number (pos 4) ∷ [])
      (number (pos 99) ∷ []) "linear" (λ h. ((λ x xs. (_, refl, tt)), tt))
