-- ===== src/Workload/Talker/Runs.antt =====
-- Whole runs of the sender's loop.
use time_sensitive_packet.Base.{
  ℕ, zero, suc, ◌+◌, ◌-◌, ◌*◌, ◌^◌, ◌≤◌, ◌<◌, ◌≡◌, refl, Bool, true, false, List, [], ◌∷◌, ◌++◌,
  List-cases, ◌⊎◌, length, arith, Option-cases, struct_error, inl, inr, length-append,
}
use mathlib.Core.Path.{subst}
use time_sensitive_packet.Workload.Talker.{
  World, State, Outcome, finished, interrupted, crashed, start, send, await, drifted, run,
}
use time_sensitive_packet.Workload.Talker.Laws.{seq_of, packet-cases}

-- The numbers of the packets rise, from `lo` on and below `hi`.
abbrev pub IsNumbered : ℕ → ℕ → List (List ℕ) → Type 0
IsNumbered lo hi [] = lo ≤ hi
IsNumbered lo hi (d ∷ ds) = (lo ≤ seq_of d) × IsNumbered (suc (seq_of d)) hi ds

IsNumbered-suc : (lo hi : ℕ) (ds : List (List ℕ)) → IsNumbered lo hi ds → IsNumbered lo (suc hi) ds
IsNumbered-suc lo hi [] h = omega arith
IsNumbered-suc lo hi (d ∷ ds) h = (h.0, IsNumbered-suc (suc (seq_of d)) hi ds h.1)

IsNumbered-append :
    (lo hi : ℕ) (ds : List (List ℕ)) (d : List ℕ)
    → IsNumbered lo hi ds
    → seq_of d ≡ hi
    → IsNumbered lo (suc hi) (ds ++ d ∷ [])
IsNumbered-append lo hi [] d h e = (omega arith, omega arith)
IsNumbered-append lo hi (x ∷ ds) d h e = (h.0, IsNumbered-append (suc (seq_of x)) hi ds d h.1 e)

-- After `n` rounds: each packet was sent or failed, each has a drift, and those that were sent are
-- numbered below `n`, in order.
pub record IsAfter (n : ℕ) (s : State) : Type 0 where
  pub each_counted : s.sent + s.errors ≡ n
  pub each_drift : length s.drifts ≡ n
  pub each_packet : length s.packets ≡ s.sent
  pub numbered : IsNumbered 0 n s.packets

-- Interrupted in the round after `n`: as after `n` rounds, but for the drift of this round, which is
-- there if the wait was over.
pub record IsCut (n : ℕ) (s : State) : Type 0 where
  pub each_counted : s.sent + s.errors ≡ n
  pub drift_or_more : (length s.drifts ≡ n) ⊎ (length s.drifts ≡ suc n)
  pub each_packet : length s.packets ≡ s.sent
  pub numbered : IsNumbered 0 n s.packets

-- How the loop can end after at most `n` rounds: all done, interrupted in a later round, or with a
-- time that does not fit the header's 64 bits.
abbrev pub Ends : ℕ → Outcome → Type 0
Ends n (finished s) = IsAfter n s
Ends n (interrupted s) = (m : ℕ) × (m < n) × IsCut m s
Ends n (crashed x) = x ≡ struct_error

module _ (size interval_ns start_mono : ℕ) where
  step-IsAfter :
      (n : ℕ) (good : Bool) (d : List ℕ) (now : ℕ) (s : State)
      → seq_of d ≡ n
      → IsAfter n s
      → IsAfter
          (suc n)
          (send size interval_ns start_mono good d (drifted size interval_ns start_mono n now s))
  step-IsAfter n true d now s e a = record {
    each_counted = omega (arith, a.each_counted);
    each_drift =
        omega (
          arith,
          a.each_drift,
          length-append s.drifts ((now - (start_mono + n * interval_ns)) ∷ []),
        );
    each_packet = omega (arith, a.each_packet, length-append s.packets (d ∷ []));
    numbered = IsNumbered-append 0 n s.packets d a.numbered e;
  }
  step-IsAfter n false d now s e a = record {
    each_counted = omega (arith, a.each_counted);
    each_drift =
        omega (
          arith,
          a.each_drift,
          length-append s.drifts ((now - (start_mono + n * interval_ns)) ∷ []),
        );
    each_packet = a.each_packet;
    numbered = IsNumbered-suc 0 n s.packets a.numbered;
  }

  waiting-IsCut : (n : ℕ) (s : State) → IsAfter n s → IsCut n s
  waiting-IsCut n s a = record {
    each_counted = a.each_counted;
    drift_or_more = inl a.each_drift;
    each_packet = a.each_packet;
    numbered = a.numbered;
  }

  drifted-IsCut :
      (n now : ℕ) (s : State) → IsAfter n s → IsCut n (drifted size interval_ns start_mono n now s)
  drifted-IsCut n now s a = record {
    each_counted = a.each_counted;
    drift_or_more = inr (
        omega (
          arith,
          a.each_drift,
          length-append s.drifts ((now - (start_mono + n * interval_ns)) ∷ []),
        ));
    each_packet = a.each_packet;
    numbered = a.numbered;
  }

  run-IsAfter :
      (rounds n : ℕ) (w : World) (s : State)
      → n + rounds ≤ 2 ^ 32
      → IsAfter n s
      → Ends (n + rounds) (run size interval_ns start_mono rounds n w s)
  unfolding run
  run-IsAfter zero n w s fits a = subst (λ m. IsAfter m s) (omega arith) a
  run-IsAfter (suc rounds) n w s fits a =
      elim (Option-cases (await size interval_ns start_mono n w.mono)) [
        | inl ended ↦ rw (ended, run) (n, omega arith, waiting-IsCut n s a)
        | inr (p, waited) ↦
            let s' : State = drifted size interval_ns start_mono n p.now s in
            elim (List-cases w.wall) [
              | inl ended ↦ rw (waited, run, ended) (n, omega arith, drifted-IsCut n p.now s a)
              | inr (t, wall, read) ↦ elim (packet-cases size n t (omega arith)) [
                | inr raised ↦ rw (waited, run, read, raised) refl
                | inl (d, packed, numbered) ↦ elim (List-cases w.sends) [
                  | inl ended ↦
                      rw (waited, run, read, packed, ended)
                        (n, omega arith, drifted-IsCut n p.now s a)
                  | inr (good, sends, more) ↦
                      let w' : World = record { mono = p.rest; wall = wall; sends = sends } in
                      let sent = send size interval_ns start_mono good d s' in
                      rw (waited, run, read, packed, more)
                        (subst
                          (λ m. Ends m (run size interval_ns start_mono rounds (suc n) w' sent))
                          (next n rounds)
                          (run-IsAfter rounds (suc n) w' sent (omega arith)
                            (step-IsAfter n good d p.now s numbered a)))
                ]
              ]
            ]
      ]
    where
      next : (a b : ℕ) → suc a + b ≡ a + suc b
      next a b = omega arith

  -- However the clocks and the socket behave, a run of at most 2 ** 32 packets ends with every
  -- packet either sent or counted as an error, one drift for each, and the packets that were sent
  -- numbered in order below the count; or it was interrupted with that true of fewer, but that the
  -- drifts may be one more, for the packet it was about to send; or the wall clock gave a time that
  -- does not fit 64 bits.
  pub run-Ends :
      (count : ℕ) (w : World)
      → count ≤ 2 ^ 32
      → Ends count (run size interval_ns start_mono count 0 w start)
  run-Ends count w fits =
      subst (λ m. Ends m (run size interval_ns start_mono count 0 w start)) (omega arith)
        (run-IsAfter count 0 w start (omega arith) (record {
          each_counted = refl;
          each_drift = refl;
          each_packet = refl;
          numbered = omega arith;
        }))
