-- ===== src/Workload/Flood.antt =====
-- workload/be_flood.py: the best-effort load. The loop's clock readings and the results of
-- `sendto` come as a list; where it ends, the program was interrupted. Times are in nanoseconds.
pub mod Rate
pub mod Totals
use time_sensitive_packet.Base.{
  ℕ, zero, suc, ◌+◌, ◌-◌, Bool, true, false, not, List, [], ◌∷◌, ltb, leb, ◌==◌, if◌then◌else◌,
}

pub record State : Type 0 where
  pub next_tx : ℕ
  pub sent : ℕ
  pub errors : ℕ

-- `sendto`, which counts an `OSError` as an error.
abbrev pub send : Bool → State → State
send true s = record s { sent = suc s.sent }
send false s = record s { errors = suc s.errors }

-- The next time to send: a packet later, or now where that is 50 ms behind.
abbrev pub advance : ℕ → ℕ → State → State
advance per_pkt_ns now s =
    let next = s.next_tx + per_pkt_ns in
    record s { next_tx = if ltb (next + 50_000_000) now then now else next }

-- One round at the reading `now`, before the deadline.
unfoldable pub round : ℕ → ℕ → Bool → State → State
round per_pkt_ns now good s =
    if per_pkt_ns == 0
    then send good s
    else (if ltb now s.next_tx then s else send good (advance per_pkt_ns now s))

-- The loop over the readings.
unfoldable pub run : ℕ → ℕ → List (ℕ × Bool) → State → State
unfolding round
run per_pkt_ns deadline [] s = s
run per_pkt_ns deadline ((now, good) ∷ readings) s = elim (leb deadline now) [
  | true ↦ s
  | false ↦ run per_pkt_ns deadline readings (round per_pkt_ns now good s)
]

-- How long the loop sleeps at a reading at which it waits: 0 is a busy wait.
unfoldable pub sleep_ns : ℕ → State → ℕ
sleep_ns now s = let wait = s.next_tx - now in if ltb 300_000 wait then wait - 150_000 else 0
