-- ===== src/Workload/Talker/Laws.antt =====
-- The sender's waiting loop and its datagrams, as the receiver reads them.
use time_sensitive_packet.Base.{
  ℕ, ◌+◌, ◌-◌, ◌^◌, ◌≤◌, ◌<◌, ◌≡◌, ap, ◌∙◌, Option, none, some, List, [], ◌∷◌, ◌++◌, length, take,
  drop, ltb, arith, Bool-cases, ok, err, inl, inr, length-append, length-replicate, lt→ltb, ltb→lt,
  ◌⊎◌, struct_error,
}
use mathlib.Core.List.{append_assoc}
use time_sensitive_packet.Bytes.{be_bytes, be_value}
use time_sensitive_packet.Bytes.Laws.{be_value-be_bytes, length-be_bytes, take-append, drop-append}
use time_sensitive_packet.Floats.{FloatOps}
use time_sensitive_packet.Workload.Listener.{Options, Received, make_row}
use time_sensitive_packet.Workload.Talker.{
  pkt_header_size, padding, packet, Paced, note_sleep, pace,
}

-- Every sleep is asked for before the scheduled time, and ends 200 us before it.
abbrev pub SleepsBefore : ℕ → List (ℕ × ℕ) → Type 0
SleepsBefore scheduled [] = Unit
SleepsBefore scheduled ((at, ns) ∷ sleeps) =
    (500_000 ≤ scheduled - at) × (at + ns + 200_000 ≡ scheduled) × SleepsBefore scheduled sleeps

-- What the waiting loop has done if it ended: the scheduled time has come.
abbrev pub IsPaced : ℕ → Option Paced → Type 0
IsPaced scheduled none = Unit
IsPaced scheduled (some p) = (scheduled ≤ p.now) × SleepsBefore scheduled p.sleeps

note_sleep-IsPaced :
    (scheduled now : ℕ) (o : Option Paced)
    → IsPaced scheduled o
    → IsPaced scheduled (note_sleep scheduled now o)
note_sleep-IsPaced scheduled now none h = tt
note_sleep-IsPaced scheduled now (some q) h = elim (Bool-cases (ltb (now + 500_000) scheduled)) [
  | inl long ↦ rw long (h.0, (ground arith, ground arith, h.1))
  | inr short ↦ rw short h
]

-- The waiting loop ends only when the scheduled time has come, so no packet is sent early; each
-- sleep is asked for with at least 0.5 ms to go and ends 0.2 ms before the time.
pub pace-IsPaced :
    (scheduled now : ℕ) (readings : List ℕ) → IsPaced scheduled (pace scheduled now readings)
unfolding pace
pace-IsPaced scheduled now [] = elim (Bool-cases (ltb now scheduled)) [
  | inl early ↦ rw early tt
  | inr due ↦ rw due (ground arith, tt)
]
pace-IsPaced scheduled now (next ∷ readings) = elim (Bool-cases (ltb now scheduled)) [
  | inl early ↦ rw early (
      note_sleep-IsPaced scheduled now (pace scheduled next readings)
        (pace-IsPaced scheduled next readings))
  | inr due ↦ rw due (ground arith, tt)
]

-- The sequence number that a receiver reads.
abbrev pub seq_of : List ℕ → ℕ
seq_of d = be_value (take 4 d)

header_lem :
    (size seq t : ℕ)
    → seq < 2 ^ 32
    → t < 2 ^ 64
    → packet size seq t ≡ ok ((be_bytes 4 seq ++ be_bytes 8 t) ++ padding size)
unfolding packet
header_lem size seq t hs ht = rw (lt→ltb seq (2 ^ 32) hs, lt→ltb t (2 ^ 64) ht)

length-padding : (size : ℕ) → length (padding size) ≡ size - pkt_header_size
length-padding size = length-replicate (size - pkt_header_size) 0

module _ (size seq t : ℕ) (hs : seq < 2 ^ 32) (ht : t < 2 ^ 64) where
  abbrev payload : List ℕ
  payload = (be_bytes 4 seq ++ be_bytes 8 t) ++ padding size

  payload-split : payload ≡ be_bytes 4 seq ++ (be_bytes 8 t ++ padding size)
  payload-split = append_assoc (be_bytes 4 seq) (be_bytes 8 t) (padding size)

  seq_of-payload : seq_of payload ≡ seq
  seq_of-payload =
      ap seq_of payload-split
      ∙ ap be_value
          (take-append 4 (be_bytes 4 seq) (be_bytes 8 t ++ padding size) (length-be_bytes 4 seq))
      ∙ be_value-be_bytes 4 seq hs

  send_ns-payload : be_value (take 8 (drop 4 payload)) ≡ t
  send_ns-payload =
      ap (λ d. be_value (take 8 (drop 4 d))) payload-split
      ∙ ap (λ d. be_value (take 8 d))
          (drop-append 4 (be_bytes 4 seq) (be_bytes 8 t ++ padding size) (length-be_bytes 4 seq))
      ∙ ap be_value (take-append 8 (be_bytes 8 t) (padding size) (length-be_bytes 8 t))
      ∙ be_value-be_bytes 8 t ht

  length-payload : length payload ≡ pkt_header_size + (size - pkt_header_size)
  length-payload = omega (
    arith,
    length-append (be_bytes 4 seq ++ be_bytes 8 t) (padding size),
    length-append (be_bytes 4 seq) (be_bytes 8 t),
    length-be_bytes 4 seq,
    length-be_bytes 8 t,
    length-padding size,
  )

-- The receiver's row of a datagram that the sender packed has the sender's sequence number and
-- time, and the size asked for, or the header's 12 bytes if that is more; packing does not raise
-- while the number fits 32 bits and the time 64.
pub make_row-packet :
    (F : FloatOps) (o : Options) (r : Received) (recv : ℕ) (prev : Option ℕ) (size seq t : ℕ)
    → seq < 2 ^ 32
    → t < 2 ^ 64
    → (d : List ℕ) × (packet size seq t ≡ ok d)
      × ((make_row F o d r recv prev).seq ≡ seq)
      × ((make_row F o d r recv prev).send_ns ≡ t)
      × ((make_row F o d r recv prev).pkt_size ≡ pkt_header_size + (size - pkt_header_size))
make_row-packet F o r recv prev size seq t hs ht = (
  payload size seq t hs ht,
  header_lem size seq t hs ht,
  seq_of-payload size seq t hs ht,
  send_ns-payload size seq t hs ht,
  length-payload size seq t hs ht,
)

-- Packing a number of 32 bits gives a packet with that number, or raises over the time.
pub packet-cases :
    (size seq t : ℕ)
    → seq < 2 ^ 32
    → ((d : List ℕ) × (packet size seq t ≡ ok d) × (seq_of d ≡ seq))
      ⊎ (packet size seq t ≡ err struct_error)
unfolding packet
packet-cases size seq t hs = elim (Bool-cases (ltb t (2 ^ 64))) [
  | inl fits ↦ inl (
    payload size seq t hs (ltb→lt t (2 ^ 64) fits),
    header_lem size seq t hs (ltb→lt t (2 ^ 64) fits),
    seq_of-payload size seq t hs (ltb→lt t (2 ^ 64) fits),
  )
  | inr late ↦ inr (rw (lt→ltb seq (2 ^ 32) hs, late))
]
