-- ===== src/Workload/Listener/Rows.antt =====
-- The rows of the receiver, and the ways its loop ends.
use time_sensitive_packet.Base.{
  ℕ, ◌+◌, ◌≤◌, ◌≡◌, ◌≢◌, refl, ◌⊎◌, inl, inr, Option, none, some, List, [], ◌∷◌, ◌++◌, length, ltb,
  if◌then◌else◌, arith, Exception, ok, Bool-cases, Result-cases, >>=-eq-ok, ok-injective, sym,
}
use mathlib.Core.Path.{subst}
use time_sensitive_packet.Floats.{FloatOps}
use time_sensitive_packet.Workload.Listener.{
  ControlMessage, Received, Options, recv_one, Event, datagram, timeout, interrupt, Row, State,
  empty, latency_of, jitter_of, make_row, started, stored, receive, Outcome, on_timeout, stopped,
  running, crashed, run, pkt_header_size,
}

module _ (F : FloatOps) (o : Options) where
  -- Each latency is taken from the row's own times, each jitter from the row before, `prev` being
  -- the time of the row before the first.
  abbrev pub Linked : Option ℕ → List (Row F) → Type 0
  Linked prev [] = Unit
  Linked prev (r ∷ rs) =
      (r.latency_ms ≡ latency_of F r.send_ns r.recv_ns)
      × (r.jitter_us ≡ jitter_of F o.expected_interval_ns prev r.recv_ns)
      × (pkt_header_size ≤ r.pkt_size)
      × Linked (some r.recv_ns) rs

  abbrev pub last_recv : Option ℕ → List (Row F) → Option ℕ
  last_recv prev [] = prev
  last_recv prev (r ∷ rs) = last_recv (some r.recv_ns) rs

  abbrev pub sum_sizes : List (Row F) → ℕ
  sum_sizes [] = 0
  sum_sizes (r ∷ rs) = r.pkt_size + sum_sizes rs

  pub record IsValid (s : State F) : Type 0 where
    pub linked : Linked none s.results
    pub prev_lem : s.prev_recv_ns ≡ last_recv none s.results
    pub bytes_lem : s.total_bytes ≡ sum_sizes s.results

  Linked-append :
      (prev : Option ℕ) (rs : List (Row F)) (r : Row F)
      → Linked prev rs
      → Linked (last_recv prev rs) (r ∷ [])
      → Linked prev (rs ++ r ∷ [])
  Linked-append prev [] r h k = k
  Linked-append prev (x ∷ rs) r h k = (h.0, h.1, h.2, Linked-append (some x.recv_ns) rs r h.3 k)

  last_recv-append :
      (prev : Option ℕ) (rs : List (Row F)) (r : Row F)
      → last_recv prev (rs ++ r ∷ []) ≡ some r.recv_ns
  last_recv-append prev [] r = refl
  last_recv-append prev (x ∷ rs) r = last_recv-append (some x.recv_ns) rs r

  sum_sizes-append :
      (rs : List (Row F)) (r : Row F) → sum_sizes (rs ++ r ∷ []) ≡ sum_sizes rs + r.pkt_size
  sum_sizes-append [] r = omega arith
  sum_sizes-append (x ∷ rs) r = omega (arith, sum_sizes-append rs r)

  started-IsValid : (t : ℕ) (s : State F) → IsValid s → IsValid (started F o t s)
  started-IsValid t s v = record {
    linked = v.linked;
    prev_lem = v.prev_lem;
    bytes_lem = v.bytes_lem;
  }

  stored-IsValid :
      (d : List ℕ) (r : Received) (t : ℕ) (s : State F)
      → pkt_header_size ≤ length d
      → IsValid s
      → IsValid (stored F o d r t s)
  stored-IsValid d r t s long v =
      let row = make_row F o d r t s.prev_recv_ns in
      record {
        linked = Linked-append none s.results row v.linked (refl, rw v.prev_lem, long, tt);
        prev_lem = sym (last_recv-append none s.results row);
        bytes_lem = omega (arith, v.bytes_lem, sum_sizes-append s.results row);
      }

  -- The state after a datagram that a long enough payload may have extended.
  received-IsValid :
      (d : List ℕ) (r : Received) (t : ℕ) (s : State F)
      → IsValid s
      → IsValid (if ltb (length d) pkt_header_size then s else stored F o d r t s)
  received-IsValid d r t s v = elim (Bool-cases (ltb (length d) pkt_header_size)) [
    | inl short ↦ rw short v
    | inr long ↦ rw long (stored-IsValid d r t s (ground arith) v)
  ]

  -- Whatever arrives, the rows stay linked.
  abbrev pub StateOf : (P : State F → Type 0) → Outcome F → Type 0
  StateOf P (stopped s) = P s
  StateOf P (running s) = P s
  StateOf P (crashed x) = Unit

  receive-IsValid :
      (d : List ℕ) (anc : List ControlMessage) (t : ℕ) (s : State F) (s' : State F)
      → IsValid s
      → receive F o d anc t s ≡ ok s'
      → IsValid s'
  unfolding receive
  receive-IsValid d anc t s s' v h =
      let (r, _, e) = >>=-eq-ok (recv_one o anc) _ h in
      subst IsValid (ok-injective e)
        (received-IsValid d r t (started F o t s) (started-IsValid t s v))

  stopped-injective : (s s' : State F) → ◌≡◌ {A = Outcome F} (stopped s) (stopped s') → s ≡ s'
  stopped-injective s s' h = cc

  not_stopped : (x : Exception) (s : State F) → ¬ (◌≡◌ {A = Outcome F} (crashed x) (stopped s))
  not_stopped x s h = cc

  on_timeout-StateOf :
      (rows : List (Row F)) (s : State F) (rest : Outcome F)
      → IsValid s
      → StateOf IsValid rest
      → StateOf IsValid (on_timeout F rows s rest)
  on_timeout-StateOf [] s rest v h = h
  on_timeout-StateOf (r ∷ rs) s rest v h = v

  on_timeout-stopped :
      (rows : List (Row F)) (s s' : State F) (rest : Outcome F)
      → on_timeout F rows s rest ≡ stopped s'
      → (rest ≡ stopped s') ⊎ ((rows ≢ []) × (s ≡ s'))
  on_timeout-stopped [] s s' rest h = inl h
  on_timeout-stopped (r ∷ rs) s s' rest h = inr (λ e. cc, stopped-injective s s' h)

  run-StateOf : (es : List Event) (s : State F) → IsValid s → StateOf IsValid (run F o es s)
  unfolding run
  run-StateOf [] s v = v
  run-StateOf (interrupt ∷ es) s v = v
  run-StateOf (timeout ∷ es) s v =
      on_timeout-StateOf s.results s (run F o es s) v (run-StateOf es s v)
  run-StateOf (datagram d anc t ∷ es) s v = elim (Result-cases (receive F o d anc t s)) [
    | inl (s', e) ↦ rw (e, run) (run-StateOf es s' (receive-IsValid d anc t s s' v e))
    | inr (x, e) ↦ rw (e, run) tt
  ]

  -- From an empty log, whatever packets, timeouts and interrupts come in whatever order, as long
  -- as no control message is malformed: each row has the latency of its own two times, the first
  -- row has jitter 0 and every other one the deviation from the row before plus the interval; no
  -- row has fewer bytes than a header, and the byte total is the sum over the rows.
  pub run-IsValid : (es : List Event) → StateOf IsValid (run F o es (empty F))
  run-IsValid es =
      run-StateOf es (empty F) (record { linked = tt; prev_lem = refl; bytes_lem = refl })

  -- Without an interrupt.
  abbrev pub IsUninterrupted : List Event → Type 0
  IsUninterrupted [] = Unit
  IsUninterrupted (interrupt ∷ es) = ⊥
  IsUninterrupted (timeout ∷ es) = IsUninterrupted es
  IsUninterrupted (datagram d anc t ∷ es) = IsUninterrupted es

  -- The loop waits for its first row through any number of timeouts: it stops by itself only with
  -- rows to report.
  pub run-stopped :
      (es : List Event) (s s' : State F)
      → IsUninterrupted es
      → run F o es s ≡ stopped s'
      → s'.results ≢ []
  unfolding run
  run-stopped [] s s' u h = cc
  run-stopped (interrupt ∷ es) s s' u h = absurd u
  run-stopped (timeout ∷ es) s s' u h = elim (on_timeout-stopped s.results s s' (run F o es s) h) [
    | inl e ↦ run-stopped es s s' u e
    | inr (some_rows, e) ↦ subst (λ (t : State F). t.results ≢ []) e some_rows
  ]
  run-stopped (datagram d anc t ∷ es) s s' u h = elim (Result-cases (receive F o d anc t s)) [
    | inl (s1, e) ↦ run-stopped es s1 s' u (rw (e, run) at h)
    | inr (x, e) ↦ absurd (not_stopped x s' (rw (e, run) at h))
  ]
