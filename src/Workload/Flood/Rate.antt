-- ===== src/Workload/Flood/Rate.antt =====
-- The rate of the flood's loop.
use time_sensitive_packet.Base.{
  ℕ, ◌+◌, ◌*◌, ◌≤◌, ◌≡◌, ◌≢◌, Bool, true, false, List, [], ◌∷◌, ltb, leb, ◌==◌, arith, Bool-cases,
  inl, inr,
}
use time_sensitive_packet.Workload.Flood.{State, send, advance, round, run}

-- Attempts so far, at one packet per `per_pkt_ns` from `t0` on, do not reach past `next_tx`, and
-- that is at most a packet after the latest reading.
pub record IsPaced (per_pkt_ns t0 latest : ℕ) (s : State) : Type 0 where
  pub behind : t0 + per_pkt_ns * (s.sent + s.errors) ≤ s.next_tx
  pub ahead : s.next_tx ≤ latest + per_pkt_ns

-- The readings do not go back, and start from `from`.
abbrev pub IsRising : ℕ → List (ℕ × Bool) → Type 0
IsRising from [] = Unit
IsRising from ((now, good) ∷ readings) = (from ≤ now) × IsRising now readings

abbrev pub last_reading : ℕ → List (ℕ × Bool) → ℕ
last_reading from [] = from
last_reading from ((now, good) ∷ readings) = last_reading now readings

last_reading-le :
    (from : ℕ) (readings : List (ℕ × Bool))
    → IsRising from readings
    → from ≤ last_reading from readings
last_reading-le from [] h = omega arith
last_reading-le from ((now, good) ∷ readings) h =
    omega (arith, h.0, last_reading-le now readings h.1)

advance_bounds :
    (per now : ℕ) (s : State)
    → s.next_tx ≤ now
    → let next = (advance per now s).next_tx in (s.next_tx + per ≤ next) × (next ≤ now + per)
advance_bounds per now s h = ground arith

sent_one :
    (per t0 now : ℕ) (good : Bool) (s : State)
    → s.next_tx ≤ now
    → t0 + per * (s.sent + s.errors) ≤ s.next_tx
    → IsPaced per t0 now (send good (advance per now s))
sent_one per t0 now true s h b =
    let (low, high) = advance_bounds per now s h in record { behind = omega arith; ahead = high }
sent_one per t0 now false s h b =
    let (low, high) = advance_bounds per now s h in record { behind = omega arith; ahead = high }

round-IsPaced :
    (per t0 latest now : ℕ) (good : Bool) (s : State)
    → per ≢ 0
    → latest ≤ now
    → IsPaced per t0 latest s
    → IsPaced per t0 now (round per now good s)
unfolding round
round-IsPaced per t0 latest now good s nonzero le p =
    rw (not_zero per nonzero) (elim (Bool-cases (ltb now s.next_tx)) [
      | inl early ↦ rw early (record { behind = p.behind; ahead = omega (arith, p.ahead) })
      | inr due ↦ rw due (sent_one per t0 now good s (ground arith) p.behind)
    ])
  where
    not_zero : (n : ℕ) → n ≢ 0 → (n == 0) ≡ false
    not_zero n h = ground arith

run-IsPaced :
    (per t0 deadline latest : ℕ) (readings : List (ℕ × Bool)) (s : State)
    → per ≢ 0
    → IsRising latest readings
    → IsPaced per t0 latest s
    → IsPaced per t0 (last_reading latest readings) (run per deadline readings s)
unfolding run
run-IsPaced per t0 deadline latest [] s nonzero rising p = p
run-IsPaced per t0 deadline latest ((now, good) ∷ readings) s nonzero rising p =
    elim (Bool-cases (leb deadline now)) [
      | inl over ↦
          rw (over, run)
            (record {
              behind = p.behind;
              ahead = omega (arith, p.ahead, rising.0, last_reading-le now readings rising.1);
            })
      | inr going ↦
          rw (going, run)
            (run-IsPaced per t0 deadline now readings (round per now good s) nonzero rising.1
              (round-IsPaced per t0 latest now good s nonzero rising.0 p))
    ]

-- With a rate, a clock that does not go back and readings up to the last one: the attempts, at
-- `per_pkt_ns` each, take no more than the time since the start and one packet. Falling behind by
-- more than 50 ms does not add a burst.
pub flood_rate :
    (per_pkt_ns t0 deadline : ℕ) (readings : List (ℕ × Bool))
    → per_pkt_ns ≢ 0
    → IsRising t0 readings
    → let s = run per_pkt_ns deadline readings (record { next_tx = t0; sent = 0; errors = 0 }) in
      t0 + per_pkt_ns * (s.sent + s.errors) ≤ last_reading t0 readings + per_pkt_ns
flood_rate per t0 deadline readings nonzero rising =
    let p =
      run-IsPaced per t0 deadline t0 readings (record { next_tx = t0; sent = 0; errors = 0 })
        nonzero rising (record { behind = omega arith; ahead = omega arith }) in
    omega (arith, p.behind, p.ahead)
