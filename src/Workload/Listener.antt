-- ===== src/Workload/Listener.antt =====
-- workload/listener.py: what the receiver of the time-sensitive flow records of each packet, and
-- its file and figures at the end. Times are in nanoseconds. The clock, the socket and the interrupt
-- enter as events; progress lines are not modelled.
pub mod Csv
pub mod Report
pub mod Rows
pub mod Totals
use time_sensitive_packet.Base.{
  ℕ, zero, suc, ◌+◌, ◌*◌, ◌^◌, Bool, true, false, ◌&&◌, ◌||◌, not, Option, none, some, List, [],
  ◌∷◌, ◌++◌, length, take, drop, get_elem?, ltb, leb, ◌==◌, if◌then◌else◌, Result, ok, err,
  Exception, index_error, ◌>>=◌,
}
use time_sensitive_packet.Base.Int.{ℤ, pos, negsuc, ◌+ℤ◌, ◌-ℤ◌, sub_ℕ}
use time_sensitive_packet.Bytes.{le_value, be_value}
use time_sensitive_packet.Floats.{FloatOps}

-- One entry of the ancillary data that `recvmsg` returns.
pub record ControlMessage : Type 0 where
  pub level : ℕ
  pub ctype : ℕ
  pub cdata : List ℕ

-- Linux: IPPROTO_IP, IP_TOS, SOL_SOCKET and SO_TIMESTAMPNS_NEW.
abbrev pub ipproto_ip : ℕ
ipproto_ip = 0

abbrev pub ip_tos : ℕ
ip_tos = 1

abbrev pub sol_socket : ℕ
sol_socket = 1

abbrev pub scm_timestampns_new : ℕ
scm_timestampns_new = 64

-- The 12 bytes of `!IQ`.
abbrev pub pkt_header_size : ℕ
pkt_header_size = 12

-- A signed 64-bit field, low byte first as on the hosts that the testbed runs on.
abbrev pub signed_64 : List ℕ → ℤ
signed_64 bs = let v = le_value bs in if ltb v (2 ^ 63) then pos v else sub_ℕ v (2 ^ 64)

-- The two results of `recv_one` beside the payload.
pub record Received : Type 0 where
  pub tos : Option ℤ
  pub kernel_ns : Option ℤ

abbrev pub billion : ℤ → ℤ
billion (pos n) = pos (1_000_000_000 * n)
billion (negsuc n) = sub_ℕ 0 (1_000_000_000 * suc n)

-- The body of the loop over the ancillary data.
unfoldable pub read_control : ControlMessage → Received → Result Received
read_control m r =
    if (m.level == ipproto_ip) && (m.ctype == ip_tos)
    then elim (get_elem? m.cdata 0) [
      | none ↦ err index_error
      | some b ↦ ok (record r { tos = some (pos b) })
    ]
    else (if (m.level == sol_socket) && (m.ctype == scm_timestampns_new) && leb 16 (length m.cdata)
        then ok (record r {
          kernel_ns =
              some (billion (signed_64 (take 8 m.cdata)) +ℤ signed_64 (take 8 (drop 8 m.cdata)));
        })
        else ok r)

unfoldable pub read_controls : List ControlMessage → Received → Result Received
unfolding read_control
read_controls [] r = ok r
read_controls (m ∷ ms) r = do r' ← read_control m r; read_controls ms r'

-- The options of the command line that the loop reads.
pub record Options : Type 0 where
  pub record_tos : Bool
  pub kernel_ts : Bool
  pub expected_interval_ns : ℕ

-- `recv_one`, once a datagram has come.
unfoldable pub recv_one : Options → List ControlMessage → Result Received
unfolding read_controls
recv_one o anc =
    if not o.record_tos && not o.kernel_ts
    then ok (record { tos = none; kernel_ns = none })
    else read_controls anc
        (record { tos = if o.record_tos then some (negsuc 0) else none; kernel_ns = none })

-- What the loop waits for: a datagram, with the clock read after it; the socket's timeout; Ctrl-C.
pub data Event : Type 0 where
  datagram : List ℕ → List ControlMessage → ℕ → Event
  timeout interrupt : Event

module _ (F : FloatOps) where
  -- A row of the CSV; the optional columns are there as the options say.
  pub record Row : Type 0 where
    pub seq : ℕ
    pub send_ns : ℕ
    pub recv_ns : ℕ
    pub latency_ms : F.Float
    pub jitter_us : F.Float
    pub pkt_size : ℕ
    pub tos : Option ℤ
    pub recv_kernel_ns : Option ℤ

  pub record State : Type 0 where
    pub results : List Row
    pub prev_recv_ns : Option ℕ
    pub total_bytes : ℕ
    pub start_time : Option ℕ

  abbrev pub empty : State
  empty = record { results = []; prev_recv_ns = none; total_bytes = 0; start_time = none }

  abbrev pub latency_of : ℕ → ℕ → F.Float
  latency_of send recv = F.over (F.of_int (sub_ℕ recv send)) (F.decimal 1_000_000 0)

  -- The deviation of the arrival from the previous one plus the interval; 0 for the first row.
  abbrev pub jitter_of : ℕ → Option ℕ → ℕ → F.Float
  jitter_of interval none recv = F.decimal 0 0
  jitter_of interval (some prev) recv =
      F.over (F.of_int (sub_ℕ recv (prev + interval))) (F.decimal 1000 0)

  -- How the loop stands after the events: left, still waiting, or ended by an exception.
  pub data Outcome : Type 0 where
    stopped running : State → Outcome
    crashed : Exception → Outcome

  -- The handler of `TimeoutError`: it leaves the loop only if there are rows.
  abbrev pub on_timeout : List Row → State → Outcome → Outcome
  on_timeout [] s rest = rest
  on_timeout (r ∷ rs) s rest = stopped s

  module _ (o : Options) where
    abbrev pub make_row : List ℕ → Received → ℕ → Option ℕ → Row
    make_row d r recv prev =
        let send = be_value (take 8 (drop 4 d)) in
        record {
          seq = be_value (take 4 d);
          send_ns = send;
          recv_ns = recv;
          latency_ms = latency_of send recv;
          jitter_us = jitter_of o.expected_interval_ns prev recv;
          pkt_size = length d;
          tos = if o.record_tos then r.tos else none;
          recv_kernel_ns =
              if o.kernel_ts
              then some (elim r.kernel_ns [ some k ↦ k | none ↦ negsuc 0 ])
              else none;
        }

    -- The first packet of any length starts the clock.
    abbrev pub started : ℕ → State → State
    started recv s = record s {
      start_time = elim s.start_time [ some t ↦ some t | none ↦ some recv ];
    }

    -- A row is added for a datagram that has a header.
    abbrev pub stored : List ℕ → Received → ℕ → State → State
    stored d r recv s = record s {
      results = s.results ++ make_row d r recv s.prev_recv_ns ∷ [];
      prev_recv_ns = some recv;
      total_bytes = s.total_bytes + length d;
    }

    -- The loop's body for one datagram.
    unfoldable pub receive : List ℕ → List ControlMessage → ℕ → State → Result State
    unfolding recv_one
    receive d anc recv s = do
      r ← recv_one o anc
      let s' = started recv s
      ok (if ltb (length d) pkt_header_size then s' else stored d r recv s')

    unfoldable pub run : List Event → State → Outcome
    unfolding receive
    run [] s = running s
    run (interrupt ∷ es) s = stopped s
    run (timeout ∷ es) s = on_timeout s.results s (run es s)
    run (datagram d anc recv ∷ es) s = elim (receive d anc recv s) [
      | ok s' ↦ run es s'
      | err x ↦ crashed x
    ]
