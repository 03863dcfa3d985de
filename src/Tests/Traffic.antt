-- ===== src/Tests/Traffic.antt =====
-- A short run of the sender and of the flood.
use time_sensitive_packet.Base.{
  ℕ, ◌+◌, ◌*◌, ◌≤◌, ◌≡◌, refl, Bool, true, false, some, List, [], ◌∷◌, ok, Gives, arith,
}
use time_sensitive_packet.Base.Int.{pos}
use time_sensitive_packet.Floats.Plain.{Number, number, plain_floats, plain_floats_order}
use time_sensitive_packet.Numpy.Samples.Sorting.{insertion_sort}
use time_sensitive_packet.Workload.Ranks.{IndexLaws, AreRanks, ranks_of, ranks_of-AreRanks}
use time_sensitive_packet.Workload.Talker.{World, State, finished, pace, start}
use time_sensitive_packet.Workload.Talker
use time_sensitive_packet.Workload.Talker.Laws.{IsPaced, pace-IsPaced}
use time_sensitive_packet.Workload.Talker.Runs.{Ends, run-Ends}
use time_sensitive_packet.Workload.Talker.Totals.{Totals, totals, AllSent, totals-AllSent}
use time_sensitive_packet.Workload.Flood
use time_sensitive_packet.Workload.Flood.Rate.{flood_rate}
use time_sensitive_packet.Workload.Sink

pace-IsPaced_example : IsPaced 2_000_000 (pace 2_000_000 1_000_000 (1_800_100 ∷ 2_000_003 ∷ []))
pace-IsPaced_example = pace-IsPaced 2_000_000 1_000_000 (1_800_100 ∷ 2_000_003 ∷ [])

abbrev world : World
world = record {
  mono = 10 ∷ 900_000 ∷ 1_000_012 ∷ [];
  wall = 500 ∷ 1_000_500 ∷ [];
  sends = true ∷ false ∷ [];
}

run-Ends_example : Ends 2 (Talker.run 128 1_000_000 10 2 0 world start)
run-Ends_example = run-Ends 128 1_000_000 10 2 world (omega arith)

-- At 100 ms for a packet, the second reading comes too early.
abbrev readings : List (ℕ × Bool)
readings = (1000, true) ∷ (50_000_000, true) ∷ (100_001_000, true) ∷ []

flood-run :
    Flood.run 100_000_000 500_000_000 readings (record { next_tx = 1000; sent = 0; errors = 0 })
    ≡ record { next_tx = 200_001_000; sent = 2; errors = 0 }
unfolding Flood.run
flood-run = refl

flood_rate_example :
    1000
      + 100_000_000
        * ((Flood.run 100_000_000 500_000_000 readings
              (record { next_tx = 1000; sent = 0; errors = 0 })).sent
            + (Flood.run 100_000_000 500_000_000 readings
                (record { next_tx = 1000; sent = 0; errors = 0 })).errors)
    ≤ 100_001_000 + 100_000_000
flood_rate_example = flood_rate 100_000_000 1000 500_000_000 readings (omega arith) (omega arith)

sink-run :
    Sink.run
      (Sink.datagram 1400 ∷ Sink.timeout ∷ Sink.datagram 100 ∷ Sink.signal ∷ [])
      (record { count = 0; nbytes = 0 })
    ≡ record { count = 2; nbytes = 1500 }
unfolding Sink.run
sink-run = refl

-- In whole numbers 0.99 is 0, and the place of the 99th percentile is the first.
plain_index_laws : IndexLaws plain_floats
plain_index_laws = record { index_99-below = λ n some_there few. (0, ground arith, some_there) }

abbrev latencies : List Number
latencies = number (pos 7) ∷ number (pos 2) ∷ number (pos 5) ∷ []

ranks_of-AreRanks_example :
    Gives
      (AreRanks plain_floats plain_floats_order plain_index_laws latencies)
      (ranks_of plain_floats (insertion_sort plain_floats latencies))
ranks_of-AreRanks_example =
    ranks_of-AreRanks plain_floats plain_floats_order plain_index_laws latencies refl (omega arith)
      (omega arith)

-- Two packets, one second apart, in two seconds.
abbrev slow_world : World
slow_world = record {
  mono = 10 ∷ 900_000_010 ∷ 1_000_000_020 ∷ [];
  wall = 500 ∷ 1_000_000_500 ∷ [];
  sends = true ∷ true ∷ [];
}

abbrev all_sent : State
all_sent = record {
  sent = 2;
  errors = 0;
  drifts = 0 ∷ 10 ∷ [];
  packets =
      (0 ∷ 0 ∷ 0 ∷ 0 ∷ 0 ∷ 0 ∷ 0 ∷ 0 ∷ 0 ∷ 0 ∷ 1 ∷ 244 ∷ [])
      ∷ (0 ∷ 0 ∷ 0 ∷ 1 ∷ 0 ∷ 0 ∷ 0 ∷ 0 ∷ 59 ∷ 154 ∷ 203 ∷ 244 ∷ [])
      ∷ [];
}

abbrev second : Number
second = number (pos 1000)

abbrev good_totals : Totals plain_floats
good_totals = record {
  elapsed = number (pos 2);
  achieved = number (pos 1);
  target_rate = number (pos 1);
  drift = some (record { p50 = number (pos 0); p99 = number (pos 0); highest = number (pos 0) });
  stalls = 0;
  warns = false;
}

slow_world-run : Talker.run 12 1_000_000_000 10 2 0 slow_world start ≡ finished all_sent
unfolding Talker.run
slow_world-run = refl

all_sent-totals : totals plain_floats 2 second 2_000_000_000 all_sent ≡ ok good_totals
unfolding totals ranks_of
all_sent-totals = refl

totals-AllSent_example :
    AllSent 2 all_sent
    × (plain_floats.lt good_totals.achieved
          (plain_floats.times (plain_floats.decimal 95 2) good_totals.target_rate)
        ≡ false)
totals-AllSent_example =
    totals-AllSent plain_floats 12 1_000_000_000 10 2 slow_world all_sent second 2_000_000_000
      good_totals (omega arith) slow_world-run all_sent-totals refl
