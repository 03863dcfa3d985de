-- ===== src/Tests/Rendering.antt =====
-- The report of two conditions. The numbers count tenths.
use time_sensitive_packet.Base.{
  ◌≡◌, ◌≢◌, AllOf, refl, ◌*◌, ◌/◌, ◌%◌, ◌^◌, ◌++◌, none, some, zero, suc, List, [], ◌∷◌, ok, Text,
  chars, ℕ, str_nat, join,
}
use time_sensitive_packet.Base.Int.{pos, negsuc}
use time_sensitive_packet.Floats.{FloatOps}
use time_sensitive_packet.Floats.Plain.{Number, not_a_number, number, plain_floats}
use time_sensitive_packet.Numpy.Plain.{plain_arrays}
use time_sensitive_packet.Numpy.Samples.{IsTotal}
use time_sensitive_packet.Metrics.Distribution.{jitter_values}
use time_sensitive_packet.Numpy.Samples.Sorting.{sorting_arrays}
use time_sensitive_packet.Stats.Bootstrap.{resolve_statistic}
use time_sensitive_packet.Loader.{Run}
use time_sensitive_packet.Dataset.{Cell}
use time_sensitive_packet.Report.{choose_baseline, names_of, Summary, summarize}
use time_sensitive_packet.Report.Totals.{Accepted, IsFull}
use time_sensitive_packet.Report.Markdown.{Formats, Options, table, render_markdown}
use time_sensitive_packet.Report.Markdown.Tables.{read_rows, table_rows, table-read_rows}
use time_sensitive_packet.Report.Markdown.Plain.{FormatsLaws}
use time_sensitive_packet.Report.Markdown.Render.{IsRendered}
use time_sensitive_packet.Report.Markdown.Built.{LabelLaws, summarize-renders}
use time_sensitive_packet.Tests.Statistics.{float_of, first_always, first_always_laws}

abbrev pub F : FloatOps
F = record plain_floats { decimal = λ m k. number (pos (m * 10 / 10 ^ k)) }

-- The digit behind the point, unless it is 0.
abbrev behind_point : ℕ → Text
behind_point zero = []
behind_point (suc d) = 46 ∷ str_nat (suc d)

abbrev pub format_g : Number → Text
format_g not_a_number = chars "nan"
format_g (number (negsuc n)) = chars "-"
format_g (number (pos n)) = str_nat (n / 10) ++ behind_point (n % 10)

pub labels : LabelLaws F format_g
unfolding str_nat
labels = record { label_50 = refl; label_90 = refl; label_99 = refl; label_999 = refl }

abbrev pub formats : Formats F
formats = record {
  fixed = λ digits x. chars "1.00";
  signed = λ digits x. chars "+1.00";
  exponent = λ digits x. chars "1.00e+00";
}

pub formats_laws : FormatsLaws formats
formats_laws = record {
  fixed-IsPlain = λ digits x. refl;
  signed-IsPlain = λ digits x. refl;
  exponent-IsPlain = λ digits x. refl;
}

abbrev run : Run F
run = record {
  name = chars "fifo_run1";
  condition = chars "fifo";
  run_index = some 1;
  seq = pos 0 ∷ pos 2 ∷ [];
  send_ns = pos 100 ∷ pos 100 ∷ [];
  recv_ns = pos 200 ∷ pos 200 ∷ [];
  latency_ms = number (pos 5) ∷ number (pos 6) ∷ [];
  jitter_us = number (pos 3) ∷ number (pos 3) ∷ [];
  pkt_size = pos 128 ∷ pos 128 ∷ [];
  tos = none;
}

abbrev cells : List (Text × Cell F)
cells =
    (chars "fifo", record { condition = chars "fifo"; runs = run ∷ run ∷ [] })
    ∷ (chars "prio_clsf", record { condition = chars "prio_clsf"; runs = run ∷ [] })
    ∷ []

abbrev pub options : Options F
options = record {
  results_dir = chars "results";
  percentile_method = "linear";
  n_boot = pos 5;
  ci = number (pos 9);
  seed = pos 0;
}

known_50 :
    resolve_statistic F (sorting_arrays F) float_of "p50" "linear" ≡ ok (λ xs. ok not_a_number)
unfolding resolve_statistic
known_50 = refl

known_99 :
    resolve_statistic F (sorting_arrays F) float_of "p99" "linear" ≡ ok (λ xs. ok not_a_number)
unfolding resolve_statistic
known_99 = refl

first : choose_baseline (names_of cells) none ≡ ok (chars "fifo")
unfolding choose_baseline
first = refl

returns_nan : IsTotal F (λ xs. ok not_a_number)
returns_nan x xs = (not_a_number, refl, tt)

pub accepted :
    Accepted F
      (sorting_arrays F)
      float_of
      first_always
      first_always_laws
      "linear"
      (number (pos 9))
      (pos 0)
accepted = record {
  p50 = λ xs. ok not_a_number;
  p99 = λ xs. ok not_a_number;
  known_50 = known_50;
  known_99 = known_99;
  p50-IsTotal = returns_nan;
  p99-IsTotal = returns_nan;
  labels-AreTotal = (returns_nan, (returns_nan, (returns_nan, (returns_nan, tt))));
  seed-IsSeed = tt;
  ci-IsConfidence = (returns_nan, returns_nan);
}

run-IsFull : (run.latency_ms ≢ []) × (jitter_values F run.jitter_us ≢ [])
run-IsFull = ((λ h. cc), (λ h. cc))

cells-AreFull : AllOf (λ c. IsFull F c.1) cells
cells-AreFull = (((λ h. cc), (run-IsFull, (run-IsFull, tt))), (((λ h. cc), (run-IsFull, tt)), tt))

summarize-renders_example :
    (s : Summary F) × (lines : List Text) × (summarize F plain_arrays
        (sorting_arrays F)
        format_g
        float_of
        first_always
        "linear"
        (number (pos 9))
        (pos 5)
        (pos 0)
        cells
        none
      ≡ ok (some s))
    × (render_markdown F formats (number (pos 0)) options s ≡ ok (join (10 ∷ []) lines))
    × IsRendered F formats formats_laws s lines
summarize-renders_example =
    summarize-renders F formats formats_laws (sorting_arrays F) format_g labels plain_arrays
      float_of first_always first_always_laws "linear" (number (pos 9)) (pos 5) (pos 0) accepted
      cells none (chars "fifo") (number (pos 0)) options cells-AreFull first
      ((refl, refl), ((refl, refl), tt))

table-read_rows_example :
    read_rows (table (chars "a" ∷ chars "b" ∷ []) ((chars "1" ∷ chars "2" ∷ []) ∷ []) ++ [])
    ≡ table_rows (chars "a" ∷ chars "b" ∷ []) ((chars "1" ∷ chars "2" ∷ []) ∷ []) ++ read_rows []
table-read_rows_example =
    table-read_rows (chars "a" ∷ chars "b" ∷ []) ((chars "1" ∷ chars "2" ∷ []) ∷ []) []
      (refl, (refl, tt)) ((refl, (refl, tt)), tt)
