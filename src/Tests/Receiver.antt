-- ===== src/Tests/Receiver.antt =====
-- A receiver that waits, takes two packets and times out.
use time_sensitive_packet.Base.{
  ℕ, ◌+◌, ◌≡◌, ◌≢◌, refl, true, false, none, some, List, [], ◌∷◌, map, arith, ok, sum, lookup,
  count, count_if, int_eq, ◌⊎◌,
}
use time_sensitive_packet.Base.Int.{ℤ, pos, negsuc, ltb_ℤ}
use time_sensitive_packet.Floats.Plain.{plain_floats, number}
use time_sensitive_packet.Numpy.Plain.{plain_arrays, plain_arrays_laws}
use time_sensitive_packet.Metrics.Dscp.{
  Distribution, counts, dscp_distribution, distribution_of, valid, shift_2,
}
use time_sensitive_packet.Metrics.Dscp.Laws.{entry, has_dscp, has_ecn, dscp_distribution-total}
use time_sensitive_packet.Metrics.Dscp.Dominant.{IsMode, dominant_dscp-IsMode}
use time_sensitive_packet.Workload.Listener.{
  ControlMessage, Event, datagram, timeout, Options, Row, State, run, empty, stopped, make_row,
}
use time_sensitive_packet.Workload.Listener.Rows.{IsValid, StateOf, run-IsValid, run-stopped}
use time_sensitive_packet.Workload.Listener.Totals.{count_tos}
use time_sensitive_packet.Workload.Listener.Totals.Counts.{counted, count_tos-distribution}
use time_sensitive_packet.Workload.Talker.{packet}
use time_sensitive_packet.Workload.Talker.Laws.{make_row-packet}

abbrev pub options : Options
options = record { record_tos = true; kernel_ts = false; expected_interval_ns = 1_000_000 }

abbrev tos_message : ControlMessage
tos_message = record { level = 0; ctype = 1; cdata = 184 ∷ [] }

abbrev first_packet : List ℕ
first_packet = 0 ∷ 0 ∷ 0 ∷ 0 ∷ 0 ∷ 0 ∷ 0 ∷ 0 ∷ 0 ∷ 0 ∷ 0 ∷ 100 ∷ []

abbrev second_packet : List ℕ
second_packet = 0 ∷ 0 ∷ 0 ∷ 1 ∷ 0 ∷ 0 ∷ 0 ∷ 0 ∷ 0 ∷ 0 ∷ 1 ∷ 0 ∷ 9 ∷ []

abbrev events : List Event
events =
    timeout
    ∷ datagram first_packet (tos_message ∷ []) 2_000_000
    ∷ datagram (1 ∷ []) [] 2_500_000
    ∷ datagram second_packet [] 3_100_000
    ∷ timeout
    ∷ []

abbrev pub first_row : Row plain_floats
first_row = record {
  seq = 0;
  send_ns = 100;
  recv_ns = 2_000_000;
  latency_ms = number (pos 1);
  jitter_us = number (pos 0);
  pkt_size = 12;
  tos = some (pos 184);
  recv_kernel_ns = none;
}

abbrev pub second_row : Row plain_floats
second_row = record {
  seq = 1;
  send_ns = 256;
  recv_ns = 3_100_000;
  latency_ms = number (pos 3);
  jitter_us = number (pos 100);
  pkt_size = 13;
  tos = some (negsuc 0);
  recv_kernel_ns = none;
}

abbrev last_state : State plain_floats
last_state = record {
  results = first_row ∷ second_row ∷ [];
  prev_recv_ns = some 3_100_000;
  total_bytes = 25;
  start_time = some 2_000_000;
}

events-run : run plain_floats options events (empty plain_floats) ≡ stopped last_state
unfolding run
events-run = refl

run-IsValid_example :
    StateOf plain_floats options
      (IsValid plain_floats options)
      (run plain_floats options events (empty plain_floats))
run-IsValid_example = run-IsValid plain_floats options events

run-stopped_example : last_state.results ≢ []
run-stopped_example =
    run-stopped plain_floats options events (empty plain_floats) last_state tt events-run

make_row-packet_example :
    let row = λ (d : List ℕ).
      make_row plain_floats options d (record { tos = none; kernel_ns = none }) 2_000_000 none in
    (d : List ℕ) × (packet 128 5 77 ≡ ok d)
    × ((row d).seq ≡ 5)
    × ((row d).send_ns ≡ 77)
    × ((row d).pkt_size ≡ 128)
make_row-packet_example =
    make_row-packet plain_floats options (record { tos = none; kernel_ns = none }) 2_000_000 none
      128 5 77 (omega arith) (omega arith)

abbrev tos_column : List ℤ
tos_column = pos 184 ∷ pos 0 ∷ negsuc 0 ∷ pos 185 ∷ []

dscp_distribution-total_example :
    (d : Distribution) × (dscp_distribution plain_arrays (some tos_column) ≡ some d)
    × (d.missing ≡ count_if (λ x. ltb_ℤ x (pos 0)) tos_column)
    × ((k : ℕ)
        → entry plain_arrays plain_arrays_laws (pos k) d.dscp ≡ count_if (has_dscp k) tos_column)
    × ((k : ℕ)
        → entry plain_arrays plain_arrays_laws (pos k) d.ecn ≡ count_if (has_ecn k) tos_column)
    × ((k : ℕ) → entry plain_arrays plain_arrays_laws (pos k) d.tos ≡ count (pos k) tos_column)
    × (sum (counts d.dscp) + d.missing ≡ 4)
    × (sum (counts d.ecn) + d.missing ≡ 4)
    × (sum (counts d.tos) + d.missing ≡ 4)
dscp_distribution-total_example = dscp_distribution-total plain_arrays plain_arrays_laws tos_column

tos_column-dominant : (distribution_of plain_arrays tos_column).dominant_dscp ≡ some (pos 46)
unfolding distribution_of
tos_column-dominant = refl

dominant_dscp-IsMode_example :
    ((valid tos_column ≡ []) × ((distribution_of plain_arrays tos_column).dominant_dscp ≡ none))
    ⊎ ((valid tos_column ≢ [])
        × (d : ℤ) × ((distribution_of plain_arrays tos_column).dominant_dscp ≡ some d)
        × IsMode d (map shift_2 (valid tos_column)))
dominant_dscp-IsMode_example = dominant_dscp-IsMode plain_arrays plain_arrays_laws tos_column

count_tos-distribution_example :
    (lookup (pos 184) (count_tos tos_column [])
      ≡ lookup (pos 184) (distribution_of plain_arrays tos_column).tos)
    × (lookup (pos 184) (count_tos tos_column []) ≡ counted (pos 184) tos_column)
count_tos-distribution_example =
    count_tos-distribution plain_arrays plain_arrays_laws tos_column (pos 184) refl
