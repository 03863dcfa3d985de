-- ===== src/Workload/Talker/Totals.antt =====
-- What talker.py computes around its loop: the interval, and at the end the rates, the drifts and
-- the warning. The wording of the lines is not modelled.
use time_sensitive_packet.Base.{
  ℕ, zero, suc, ◌+◌, ◌≤◌, ◌^◌, ◌≡◌, refl, ap, ◌∙◌, Bool, true, false, ◌||◌, Option, none, some,
  List, [], ◌∷◌, map, length, count_if, ltb, if◌then◌else◌, Result, ok, err, zero_division, ◌>>=◌,
  OnOk, OnOk-any, OnOk-bind, sym, arith,
}
use time_sensitive_packet.Base.Int.{ℤ, pos}
use time_sensitive_packet.Floats.{FloatOps}
use time_sensitive_packet.Numpy.Samples.Sorting.{insertion_sort}
use time_sensitive_packet.Workload.Ranks.{Ranks, ranks_of}
use time_sensitive_packet.Workload.Talker.{World, State, Outcome, finished, start, run}
use time_sensitive_packet.Workload.Talker.Laws.{seq_of}
use time_sensitive_packet.Workload.Talker.Runs.{IsNumbered, IsAfter, Ends, run-Ends}
use mathlib.Core.Path.{subst}

module _ (F : FloatOps) where
  -- `args.interval / 1000.0` and `int(interval_s * 1e9)`
  abbrev pub interval_s_of : F.Float → F.Float
  interval_s_of interval = F.over interval (F.decimal 1000 0)

  abbrev pub interval_ns_of : F.Float → ℤ
  interval_ns_of interval =
      F.truncate (F.times (interval_s_of interval) (F.decimal 1_000_000_000 0))

  -- A drift in microseconds.
  abbrev pub drift_us : ℕ → F.Float
  drift_us ns = F.over (F.of_int (pos ns)) (F.decimal 1000 0)

  -- `x / y` of floats.
  abbrev pub quotient : F.Float → F.Float → Result F.Float
  quotient x y = if F.equal y (F.of_int (pos 0)) then err zero_division else ok (F.over x y)

  abbrev pub larger : F.Float → F.Float → F.Float
  larger a b = if F.lt a b then b else a

  pub record Totals : Type 0 where
    pub elapsed : F.Float
    pub achieved : F.Float
    pub target_rate : F.Float
    pub drift : Option (Ranks F)
    pub stalls : ℕ
    pub warns : Bool

  -- The line of the drifts is there only if there are some.
  abbrev pub drift_ranks : List F.Float → Result (Option (Ranks F))
  drift_ranks [] = ok none
  drift_ranks (x ∷ drifts) = do r ← ranks_of F (insertion_sort F (x ∷ drifts)); ok (some r)

  -- `sent < args.count or achieved < 0.95 * target_rate`
  abbrev pub warning : ℕ → ℕ → F.Float → F.Float → Bool
  warning sent count achieved target_rate =
      ltb sent count || F.lt achieved (F.times (F.decimal 95 2) target_rate)

  -- `elapsed_ns` is the last reading of the clock, less the first.
  abbrev pub elapsed_of : ℕ → F.Float
  elapsed_of elapsed_ns =
      larger (F.over (F.of_int (pos elapsed_ns)) (F.decimal 1_000_000_000 0)) (F.decimal 1 9)

  abbrev pub drifts_of : State → List F.Float
  drifts_of s = map drift_us s.drifts

  abbrev pub totals_from : ℕ → State → F.Float → F.Float → F.Float → Option (Ranks F) → Totals
  totals_from count s elapsed achieved target_rate drift = record {
    elapsed = elapsed;
    achieved = achieved;
    target_rate = target_rate;
    drift = drift;
    stalls = count_if (λ v. F.lt (F.of_int (pos 10_000)) v) (drifts_of s);
    warns = warning s.sent count achieved target_rate;
  }

  unfoldable pub totals : ℕ → F.Float → ℕ → State → Result Totals
  totals count interval elapsed_ns s = do
    achieved ← quotient (F.of_int (pos s.sent)) (elapsed_of elapsed_ns)
    target_rate ← quotient (F.decimal 1 0) (interval_s_of interval)
    drift ← drift_ranks (drifts_of s)
    ok (totals_from count s (elapsed_of elapsed_ns) achieved target_rate drift)

-- The numbers from `lo` on.
abbrev pub numbers_from : ℕ → ℕ → List ℕ
numbers_from lo zero = []
numbers_from lo (suc n) = lo ∷ numbers_from (suc lo) n

IsNumbered-le : (lo hi : ℕ) (ds : List (List ℕ)) → IsNumbered lo hi ds → lo + length ds ≤ hi
IsNumbered-le lo hi [] h = omega arith
IsNumbered-le lo hi (d ∷ ds) h = omega (arith, h.0, IsNumbered-le (suc (seq_of d)) hi ds h.1)

-- As many as fit are all of them.
IsNumbered-all :
    (lo hi : ℕ) (ds : List (List ℕ))
    → IsNumbered lo hi ds
    → lo + length ds ≡ hi
    → map seq_of ds ≡ numbers_from lo (length ds)
IsNumbered-all lo hi [] h e = refl
IsNumbered-all lo hi (d ∷ ds) h e =
    let first : seq_of d ≡ lo = omega (arith, h.0, IsNumbered-le (suc (seq_of d)) hi ds h.1, e) in
    let rest : map seq_of ds ≡ numbers_from (suc (seq_of d)) (length ds) =
      IsNumbered-all (suc (seq_of d)) hi ds h.1 (omega (arith, first, e)) in
    ap (λ ns. seq_of d ∷ ns) rest ∙ ap (λ n. n ∷ numbers_from (suc n) (length ds)) first

-- Every packet of the count was sent, numbered from 0 on.
abbrev pub AllSent : ℕ → State → Type 0
AllSent count s =
    (s.sent ≡ count)
    × (s.errors ≡ 0)
    × (length s.drifts ≡ count)
    × (map seq_of s.packets ≡ numbers_from 0 count)

IsAfter-AllSent :
    (count : ℕ) (s : State) → IsAfter count s → ltb s.sent count ≡ false → AllSent count s
IsAfter-AllSent count s a enough =
    let sent : s.sent ≡ count = ground (arith, a.each_counted) in
    let packets : length s.packets ≡ count = omega (arith, a.each_packet, sent) in
    (
      sent,
      omega (arith, a.each_counted, sent),
      a.each_drift,
      IsNumbered-all 0 count s.packets a.numbered (omega (arith, packets))
          ∙ ap (numbers_from 0) packets,
    )

finished-IsAfter :
    (count : ℕ) (o : Outcome) (s : State) → Ends count o → o ≡ finished s → IsAfter count s
finished-IsAfter count o s h e = subst (Ends count) e h

module _ (F : FloatOps) (count : ℕ) where
  abbrev IsWarned : State → Totals F → Type 0
  IsWarned s t = t.warns ≡ warning F s.sent count t.achieved t.target_rate

  totals-IsWarned :
      (interval : F.Float) (elapsed_ns : ℕ) (s : State)
      → OnOk (IsWarned s) (totals F count interval elapsed_ns s)
  unfolding totals
  totals-IsWarned interval elapsed_ns s =
      OnOk-bind (λ a. Unit {0}) (IsWarned s)
        (quotient F (F.of_int (pos s.sent)) (elapsed_of F elapsed_ns)) _ (OnOk-any _)
        (λ achieved t.
          OnOk-bind (λ a. Unit {0}) (IsWarned s)
            (quotient F (F.decimal 1 0) (interval_s_of F interval)) _ (OnOk-any _)
            (λ target u.
              OnOk-bind (λ a. Unit {0}) (IsWarned s) (drift_ranks F (drifts_of F s))
                (λ drift.
                  ok (totals_from F count s (elapsed_of F elapsed_ns) achieved target drift))
                (OnOk-any _) (λ drift v. refl)))

  not_warned :
      (interval : F.Float) (elapsed_ns : ℕ) (s : State) (t : Totals F)
      → totals F count interval elapsed_ns s ≡ ok t
      → t.warns ≡ false
      → (ltb s.sent count ≡ false)
        × (F.lt t.achieved (F.times (F.decimal 95 2) t.target_rate) ≡ false)
  not_warned interval elapsed_ns s t h w =
      neither (ltb s.sent count) (F.lt t.achieved (F.times (F.decimal 95 2) t.target_rate))
        (sym (subst (OnOk (IsWarned s)) h (totals-IsWarned interval elapsed_ns s)) ∙ w)
    where
      neither : (a b : Bool) → (a || b) ≡ false → (a ≡ false) × (b ≡ false)
      neither true b h = cc
      neither false b h = (refl, h)

-- A run of the sender of at most 2 ** 32 packets that finished, and for which no WARNING is printed:
-- every packet was sent, with the numbers from 0 up to the count in order, none failed, and each has
-- a drift; and the rate that was achieved is not below 95 % of the target.
pub totals-AllSent :
    (F : FloatOps) (size interval_ns start_mono count : ℕ) (w : World) (s : State)
    (interval : F.Float) (elapsed_ns : ℕ) (t : Totals F)
    → count ≤ 2 ^ 32
    → run size interval_ns start_mono count 0 w start ≡ finished s
    → totals F count interval elapsed_ns s ≡ ok t
    → t.warns ≡ false
    → AllSent count s × (F.lt t.achieved (F.times (F.decimal 95 2) t.target_rate) ≡ false)
totals-AllSent F size interval_ns start_mono count w s interval elapsed_ns t few done computed
      quiet =
    let (enough, rate) = not_warned F count interval elapsed_ns s t computed quiet in
    (
      IsAfter-AllSent count s
          (finished-IsAfter count _ s (run-Ends size interval_ns start_mono count w few) done)
          enough,
      rate,
    )
