-- ===== src/Workload/Flood/Totals.antt =====
-- What be_flood.py computes in front of its loop and after it.
use time_sensitive_packet.Base.{
  ℕ, ◌*◌, Bool, List, [], ◌∷◌, if◌then◌else◌, ◌||◌, Result, ok, ◌>>=◌, Text, chars,
}
use time_sensitive_packet.Base.Int.{ℤ, pos, ◌+ℤ◌}
use time_sensitive_packet.Floats.{FloatOps}
use time_sensitive_packet.Loader.{int_of_float}
use time_sensitive_packet.Report.Json.{Json, integer, number}
use time_sensitive_packet.Workload.Flood.{State}

module _ (F : FloatOps) where
  abbrev pub million : F.Float
  million = F.decimal 1_000_000 0

  abbrev pub billion : F.Float
  billion = F.decimal 1_000_000_000 0

  -- `rate_mbps <= 0`
  abbrev pub is_unlimited : F.Float → Bool
  is_unlimited rate_mbps = F.lt rate_mbps (F.of_int (pos 0)) || F.equal rate_mbps (F.of_int (pos 0))

  -- The time of a packet at the rate that is asked for; 0 sends without a pause.
  unfoldable pub per_pkt_ns_of : ℕ → F.Float → Result ℤ
  per_pkt_ns_of size rate_mbps =
      if is_unlimited rate_mbps
      then ok (pos 0)
      else int_of_float F
          (F.times (F.over (F.of_int (pos (size * 8))) (F.times rate_mbps million)) billion)

  unfoldable pub deadline_of : ℕ → F.Float → Result ℤ
  deadline_of t0 duration = do n ← int_of_float F (F.times duration billion); ok (pos t0 +ℤ n)

  abbrev pub start : ℕ → State
  start t0 = record { next_tx = t0; sent = 0; errors = 0 }

  abbrev pub larger : F.Float → F.Float → F.Float
  larger a b = if F.lt a b then b else a

  abbrev pub elapsed_of : ℤ → F.Float
  elapsed_of elapsed_ns = larger (F.over (F.of_int elapsed_ns) billion) (F.decimal 1 9)

  -- The dict of the statistics file; `elapsed_ns` is the last reading of the clock, less the first.
  unfoldable pub stats : ℕ → F.Float → ℤ → State → List (Text × Json F)
  stats size rate_mbps elapsed_ns s =
      (chars "sent", integer (pos s.sent))
      ∷ (chars "errors", integer (pos s.errors))
      ∷ (chars "elapsed_s", number (elapsed_of elapsed_ns))
      ∷ (
        chars "achieved_mbps",
        number
            (F.over (F.over (F.of_int (pos (s.sent * size * 8))) (elapsed_of elapsed_ns)) million),
      )
      ∷ (chars "offered_mbps", number rate_mbps)
      ∷ (chars "size", integer (pos size))
      ∷ []
