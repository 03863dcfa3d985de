-- ===== src/Tests/Summary.antt =====
-- A summary of two conditions.
use time_sensitive_packet.Base.{◌≡◌, ◌≢◌, AllOf, refl, none, some, List, [], ◌∷◌, ok, Text, chars}
use time_sensitive_packet.Base.Int.{pos, negsuc}
use time_sensitive_packet.Floats.{FloatOps}
use time_sensitive_packet.Floats.Plain.{not_a_number, number, plain_floats}
use time_sensitive_packet.Numpy.Plain.{plain_arrays}
use time_sensitive_packet.Numpy.Samples.{IsTotal}
use time_sensitive_packet.Metrics.Distribution.{jitter_values}
use time_sensitive_packet.Numpy.Samples.Sorting.{sorting_arrays}
use time_sensitive_packet.Metrics.Dscp.{Distribution}
use time_sensitive_packet.Stats.Bootstrap.{resolve_statistic}
use time_sensitive_packet.Loader.{Run}
use time_sensitive_packet.Dataset.{Cell}
use time_sensitive_packet.Report.Json.{
  Json, dict, entry, no_entries, list, item, no_items, sanitize_json,
}
use time_sensitive_packet.Report.Json as J
use time_sensitive_packet.Report.Json.Strict.{IsStrict, sanitize_json-IsStrict}
use time_sensitive_packet.Report.{choose_baseline, names_of, Summary, summarize}
use time_sensitive_packet.Report.Totals.{Accepted, IsFull, IsComplete, summarize-IsComplete}
use time_sensitive_packet.Tests.Statistics.{float_of, first_always, first_always_laws}

abbrev F : FloatOps
F = plain_floats

abbrev run : Run F
run = record {
  name = chars "fifo_run1";
  condition = chars "fifo";
  run_index = some 1;
  seq = pos 0 ∷ pos 2 ∷ [];
  send_ns = pos 100 ∷ pos 100 ∷ [];
  recv_ns = pos 200 ∷ pos 200 ∷ [];
  latency_ms = number (pos 5) ∷ number (pos 6) ∷ [];
  jitter_us = number (pos 3) ∷ number (pos 3) ∷ [];
  pkt_size = pos 128 ∷ pos 128 ∷ [];
  tos = some (pos 184 ∷ negsuc 0 ∷ []);
}

-- `{"a": [nan, 3]}`
abbrev value : Json F
value = dict (
    entry (chars "a")
      (list (item (J.number not_a_number) (item (J.number (number (pos 3))) no_items))) no_entries)

sanitize_json-IsStrict_example :
    IsStrict F (sanitize_json F value)
    × (sanitize_json F (sanitize_json F value) ≡ sanitize_json F value)
sanitize_json-IsStrict_example = sanitize_json-IsStrict F value

abbrev cells : List (Text × Cell F)
cells =
    (chars "fifo", record { condition = chars "fifo"; runs = run ∷ run ∷ [] })
    ∷ (chars "prio_clsf", record { condition = chars "prio_clsf"; runs = run ∷ [] })
    ∷ []

known_50 :
    resolve_statistic F (sorting_arrays F) float_of "p50" "linear" ≡ ok (λ xs. ok not_a_number)
unfolding resolve_statistic
known_50 = refl

known_99 :
    resolve_statistic F (sorting_arrays F) float_of "p99" "linear" ≡ ok (λ xs. ok not_a_number)
unfolding resolve_statistic
known_99 = refl

first : choose_baseline (names_of cells) none ≡ ok (chars "fifo")
unfolding choose_baseline
first = refl

returns_nan : IsTotal F (λ xs. ok not_a_number)
returns_nan x xs = (not_a_number, refl, tt)

accepted :
    Accepted F
      (sorting_arrays F)
      float_of
      first_always
      first_always_laws
      "linear"
      (number (pos 1))
      (pos 0)
accepted = record {
  p50 = λ xs. ok not_a_number;
  p99 = λ xs. ok not_a_number;
  known_50 = known_50;
  known_99 = known_99;
  p50-IsTotal = returns_nan;
  p99-IsTotal = returns_nan;
  labels-AreTotal = (returns_nan, (returns_nan, (returns_nan, (returns_nan, tt))));
  seed-IsSeed = tt;
  ci-IsConfidence = (returns_nan, returns_nan);
}

run-IsFull : (run.latency_ms ≢ []) × (jitter_values F run.jitter_us ≢ [])
run-IsFull = ((λ h. cc), (λ h. cc))

cells-AreFull : AllOf (λ c. IsFull F c.1) cells
cells-AreFull = (((λ h. cc), (run-IsFull, (run-IsFull, tt))), (((λ h. cc), (run-IsFull, tt)), tt))

summarize-IsComplete_example :
    (s : Summary F) × (summarize F plain_arrays
        (sorting_arrays F)
        (λ q. chars "99")
        float_of
        first_always
        "linear"
        (number (pos 1))
        (pos 5)
        (pos 0)
        cells
        none
      ≡ ok (some s))
    × IsComplete F plain_arrays
        (sorting_arrays F)
        (λ q. chars "99")
        float_of
        first_always
        first_always_laws
        "linear"
        (number (pos 1))
        (pos 5)
        (pos 0)
        accepted
        cells
        (chars "fifo")
        s
summarize-IsComplete_example =
    summarize-IsComplete F plain_arrays (sorting_arrays F) (λ q. chars "99") float_of first_always
      first_always_laws "linear" (number (pos 1)) (pos 5) (pos 0) accepted cells none (chars "fifo")
      cells-AreFull first
