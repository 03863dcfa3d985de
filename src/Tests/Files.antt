-- ===== src/Tests/Files.antt =====
-- The file of the receiver and the dump of the counters, read back.
use time_sensitive_packet.Base.{
  ℕ, ◌≡◌, refl, true, List, [], ◌∷◌, ok, err, Result, value_error, os_error, index_error, str_nat,
  Gives, Text, chars, text_eq, lookup, sum, str_int, if◌then◌else◌, some, arith,
}
use time_sensitive_packet.Base.Int.{ℤ, pos, ◌+ℤ◌}
use time_sensitive_packet.Floats.Plain.{Number, not_a_number, number, plain_floats}
use time_sensitive_packet.Loader.{load_csv, to_int}
use time_sensitive_packet.Loader.Numbers.{to_int-str_int}
use time_sensitive_packet.Workload.Listener.Csv.{saved}
use time_sensitive_packet.Workload.Listener.Csv.Loaded.{run_from, saved-load_csv}
use time_sensitive_packet.Classifier.{
  Counter, normal, ts_avtp, ts_pcp, ts_udp, dscp_marked, parse_short,
}
use time_sensitive_packet.Bpfmaps.{set_ts_config}
use time_sensitive_packet.Bpfmaps.Dump.{counters}
use time_sensitive_packet.Bpfmaps.Counters.{IsPerCpu, counter_name, dump, counters-lookup}
use time_sensitive_packet.Bpfmaps.Command.{Printed, sums, usage, main}
use time_sensitive_packet.Tests.Receiver.{options, first_row, second_row}

abbrev str_float : Number → Text
str_float not_a_number = chars "nan"
str_float (number n) = str_int n

abbrev or_nan : Text → Result ℤ → Result Number
or_nan s (ok n) = ok (number n)
or_nan s (err e) = if text_eq.beq s (chars "nan") then ok not_a_number else err e

abbrev cell_float : Text → Result Number
cell_float s = or_nan s (to_int plain_floats (λ t. err value_error) s)

reads : (x : Number) → cell_float (str_float x) ≡ ok x
unfolding to_int
reads not_a_number = refl
reads (number n) = rw (to_int-str_int plain_floats (λ t. err value_error) n) refl

saved-load_csv_example :
    load_csv plain_floats cell_float
      (chars "prio_run1")
      (saved plain_floats str_float options (first_row ∷ second_row ∷ []))
    ≡ ok (
        run_from plain_floats str_float cell_float reads true
          (chars "prio_run1")
          (first_row ∷ second_row ∷ []))
saved-load_csv_example =
    saved-load_csv plain_floats str_float cell_float reads options (chars "prio_run1") first_row
      (second_row ∷ []) ((refl, refl, refl, refl, refl), ((refl, refl, refl, refl, refl), tt))

-- Two CPUs.
abbrev per_cpu : Counter → List ℕ
per_cpu normal = 3 ∷ 300 ∷ []
per_cpu ts_avtp = 0 ∷ 1 ∷ []
per_cpu ts_pcp = 0 ∷ 0 ∷ []
per_cpu ts_udp = 70_000 ∷ 2 ∷ []
per_cpu dscp_marked = 5 ∷ 0 ∷ []
per_cpu parse_short = 0 ∷ 18_446_744_073_709_551_615 ∷ []

per_cpu-IsPerCpu : (c : Counter) → IsPerCpu (per_cpu c)
per_cpu-IsPerCpu normal = (omega arith, (omega arith, tt))
per_cpu-IsPerCpu ts_avtp = (omega arith, (omega arith, tt))
per_cpu-IsPerCpu ts_pcp = (omega arith, (omega arith, tt))
per_cpu-IsPerCpu ts_udp = (omega arith, (omega arith, tt))
per_cpu-IsPerCpu dscp_marked = (omega arith, (omega arith, tt))
per_cpu-IsPerCpu parse_short = (omega arith, (omega arith, tt))

counters-lookup_example :
    Gives
      (λ named. (c : Counter) → lookup (counter_name c) named ≡ some (pos (sum (per_cpu c))))
      (counters (dump per_cpu))
counters-lookup_example = counters-lookup per_cpu per_cpu-IsPerCpu

-- The command line's cases, with a bpftool that reads the dump above and refuses to write.
abbrev run : List Text → Result (Printed × ℕ)
run = main (λ pinned. ok (dump per_cpu)) (λ pinned key value. err os_error)

counters-printed :
    run (chars "bpfmaps.py" ∷ chars "counters" ∷ chars "ts_counters" ∷ [])
    ≡ ok (
      sums (
          (chars "normal", pos 303)
          ∷ (chars "ts_avtp", pos 1)
          ∷ (chars "ts_pcp", pos 0)
          ∷ (chars "ts_udp", pos 70_002)
          ∷ (chars "dscp_marked", pos 5)
          ∷ (chars "parse_short", pos 18_446_744_073_709_551_615)
          ∷ []),
      0,
    )
unfolding main counters str_nat str_int ◌+ℤ◌
counters-printed = refl

config-refused :
    run (
      chars "bpfmaps.py"
      ∷ chars "set-ts-config"
      ∷ chars "ts_config"
      ∷ chars "6"
      ∷ chars "46"
      ∷ chars "1"
      ∷ [])
    ≡ err os_error
unfolding main set_ts_config
config-refused = refl

other_command : run (chars "bpfmaps.py" ∷ chars "help" ∷ []) ≡ ok (usage, 2)
unfolding main
other_command = refl

no_command : run (chars "bpfmaps.py" ∷ []) ≡ err index_error
unfolding main
no_command = refl
