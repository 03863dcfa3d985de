-- ===== src/Workload/Talker.antt =====
-- workload/talker.py: the sender of the time-sensitive flow. Times are in nanoseconds. The two
-- clocks and the socket enter as streams; where one ends, the program was interrupted. The drift
-- log and progress lines are not modelled.
pub mod Laws
pub mod Runs
pub mod Totals
use time_sensitive_packet.Base.{
  ℕ, zero, suc, ◌+◌, ◌-◌, ◌*◌, ◌^◌, Bool, true, false, Option, none, some, List, [], ◌∷◌, ◌++◌,
  length, replicate, ltb, if◌then◌else◌, Result, ok, err, Exception, struct_error, ◌>>=◌,
}
use time_sensitive_packet.Bytes.{be_bytes}

abbrev pub pkt_header_size : ℕ
pkt_header_size = 12

-- `struct.pack("!IQ", seq, send_time_ns)`
abbrev pub pack_header : ℕ → ℕ → Result (List ℕ)
pack_header seq send_time_ns =
    if ltb seq (2 ^ 32)
    then (if ltb send_time_ns (2 ^ 64)
        then ok (be_bytes 4 seq ++ be_bytes 8 send_time_ns)
        else err struct_error)
    else err struct_error

-- `max(args.size - PKT_HEADER_SIZE, 0)` zero bytes.
abbrev pub padding : ℕ → List ℕ
padding size = replicate (size - pkt_header_size) 0

unfoldable pub packet : ℕ → ℕ → ℕ → Result (List ℕ)
packet size seq send_time_ns = do header ← pack_header seq send_time_ns; ok (header ++ padding size)

-- The waiting loop: how the clock stood when it ended, the sleeps that it asked for, and the
-- readings that are left.
pub record Paced : Type 0 where
  pub now : ℕ
  pub sleeps : List (ℕ × ℕ)
  pub rest : List ℕ

-- A sleep is noted with the clock before it.
abbrev pub note_sleep : ℕ → ℕ → Option Paced → Option Paced
note_sleep scheduled now none = none
note_sleep scheduled now (some p) = some (
    if ltb (now + 500_000) scheduled
    then record p { sleeps = (now, scheduled - now - 200_000) ∷ p.sleeps }
    else p)

unfoldable pub pace : ℕ → ℕ → List ℕ → Option Paced
pace scheduled now [] =
    if ltb now scheduled then none else some (record { now = now; sleeps = []; rest = [] })
pace scheduled now (next ∷ readings) =
    let later = note_sleep scheduled now (pace scheduled next readings) in
    if ltb now scheduled
    then later
    else some (record { now = now; sleeps = []; rest = next ∷ readings })

-- CLOCK_MONOTONIC, CLOCK_REALTIME, and whether each `sendto` succeeds.
pub record World : Type 0 where
  pub mono : List ℕ
  pub wall : List ℕ
  pub sends : List Bool

pub record State : Type 0 where
  pub sent : ℕ
  pub errors : ℕ
  pub drifts : List ℕ
  pub packets : List (List ℕ)

pub data Outcome : Type 0 where
  finished interrupted : State → Outcome
  crashed : Exception → Outcome

abbrev pub start : State
start = record { sent = 0; errors = 0; drifts = []; packets = [] }

module _ (size interval_ns start_mono : ℕ) where
  -- The end of a round: the datagram is sent, or an `OSError` is counted.
  abbrev pub send : Bool → List ℕ → State → State
  send true d s = record s { sent = suc s.sent; packets = s.packets ++ d ∷ [] }
  send false d s = record s { errors = suc s.errors }

  abbrev pub pace_from : ℕ → List ℕ → Option Paced
  pace_from scheduled [] = none
  pace_from scheduled (now ∷ readings) = pace scheduled now readings

  -- The wait of the round for `seq`; `none` if the program is interrupted in it.
  unfoldable pub await : ℕ → List ℕ → Option Paced
  unfolding pace
  await seq mono = pace_from (start_mono + seq * interval_ns) mono

  -- The drift is appended before the wall clock is read.
  abbrev pub drifted : ℕ → ℕ → State → State
  drifted seq now s = record s {
    drifts = s.drifts ++ (now - (start_mono + seq * interval_ns)) ∷ [];
  }

  -- The loop with the rounds that are left. An interrupt during the wait leaves the state as it was;
  -- at the reading of the wall clock or at `sendto` the drift is there already.
  unfoldable pub run : ℕ → ℕ → World → State → Outcome
  unfolding await packet
  run zero seq w s = finished s
  run (suc rounds) seq w s = elim (await seq w.mono) [
    | none ↦ interrupted s
    | some p ↦ elim w.wall [
      | [] ↦ interrupted (drifted seq p.now s)
      | send_time_ns ∷ wall ↦ elim (packet size seq send_time_ns) [
        | err x ↦ crashed x
        | ok d ↦ elim w.sends [
          | [] ↦ interrupted (drifted seq p.now s)
          | good ∷ sends ↦
              run rounds (suc seq) (record { mono = p.rest; wall = wall; sends = sends })
                (send good d (drifted seq p.now s))
        ]
      ]
    ]
  ]
