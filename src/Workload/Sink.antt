-- ===== src/Workload/Sink.antt =====
-- workload/udp_sink.py: the receiver that counts the best-effort packets and drops them.
use time_sensitive_packet.Base.{ℕ, suc, ◌+◌, List, [], ◌∷◌, Text, chars}

-- A datagram of so many bytes, the socket's timeout, or a signal that sets `stop`.
pub data Event : Type 0 where
  datagram : ℕ → Event
  timeout signal : Event

pub record Counts : Type 0 where
  pub count : ℕ
  pub nbytes : ℕ

unfoldable pub run : List Event → Counts → Counts
run [] c = c
run (datagram n ∷ es) c = run es (record c { count = suc c.count; nbytes = c.nbytes + n })
run (timeout ∷ es) c = run es c
run (signal ∷ es) c = c

abbrev pub start : Counts
start = record { count = 0; nbytes = 0 }

-- The dict of the statistics file.
unfoldable pub stats : Counts → List (Text × ℕ)
stats c = (chars "received", c.count) ∷ (chars "bytes", c.nbytes) ∷ []
