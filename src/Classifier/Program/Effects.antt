-- ===== src/Classifier/Program/Effects.antt =====
-- One run of `ts_classifier`: the packet, the priority and the counters before and after.
use time_sensitive_packet.Base.{
  ℕ, ◌+◌, ◌%◌, ◌^◌, ◌<◌, ◌≡◌, ◌≢◌, refl, sym, ◌∙◌, ◌⊎◌, inl, inr, Bool, true, false, not, ◌&&◌,
  some, List, [], ◌∷◌, length, get_or, ◌==◌, if◌then◌else◌, if_lem, arith, Bool-cases,
}
use mathlib.Core.Path.{subst}
use time_sensitive_packet.Base.Int.{ℤ, pos, ltb_ℤ}
use time_sensitive_packet.Classifier.Defs.{
  ts_default_priority, ts_default_dscp, Counter, normal, ts_avtp, ts_pcp, ts_udp, dscp_marked,
  parse_short, TsConfig, marks_dscp, Skb, Maps,
}
use time_sensitive_packet.Classifier.Parse.{Verdict, fault, verdict, classify}
use time_sensitive_packet.Classifier.Parse.Safety.{
  IsHeaderAt, ReasonFits, IsSound, classify-IsSound,
}
use time_sensitive_packet.Classifier.Mark.{Kernel, KernelLaws, mark_dscp}
use time_sensitive_packet.Classifier.Mark.Laws.{SameElsewhere, mark_dscp-SameElsewhere}
use time_sensitive_packet.Classifier.Program.{
  tc_act_unspec, count, Result, config_of, nonzero_or, mark, ts_classifier,
}

-- Six counters, none about to wrap.
abbrev pub HasRoom : List ℕ → Type 0
HasRoom counters = (length counters ≡ 6) × ((i : ℕ) → get_or counters i 0 + 1 < 2 ^ 64)

-- The counters of the verdicts added up: all but that of the marked packets.
abbrev pub verdicts : List ℕ → ℕ
verdicts counters =
    get_or counters 0 0
    + get_or counters 1 0
    + get_or counters 2 0
    + get_or counters 3 0
    + get_or counters 5 0

-- What counting one verdict does.
abbrev CountsOne : List ℕ → List ℕ → Type 0
CountsOne before after =
    (verdicts after ≡ verdicts before + 1)
    × (get_or after 4 0 ≡ get_or before 4 0)
    × (length after ≡ 6)

no_wrap : (v : ℕ) → v + 1 < 2 ^ 64 → (v + 1) % 2 ^ 64 ≡ v + 1
no_wrap v h = omega arith

count_verdict :
    (c : Counter) (counters : List ℕ)
    → c ≢ dscp_marked
    → HasRoom counters
    → CountsOne counters (count c counters)
unfolding count
count_verdict normal (c0 ∷ c1 ∷ c2 ∷ c3 ∷ c4 ∷ c5 ∷ []) no_mark (six, room) =
    omega (arith, no_wrap c0 (room 0))
count_verdict ts_avtp (c0 ∷ c1 ∷ c2 ∷ c3 ∷ c4 ∷ c5 ∷ []) no_mark (six, room) =
    omega (arith, no_wrap c1 (room 1))
count_verdict ts_pcp (c0 ∷ c1 ∷ c2 ∷ c3 ∷ c4 ∷ c5 ∷ []) no_mark (six, room) =
    omega (arith, no_wrap c2 (room 2))
count_verdict ts_udp (c0 ∷ c1 ∷ c2 ∷ c3 ∷ c4 ∷ c5 ∷ []) no_mark (six, room) =
    omega (arith, no_wrap c3 (room 3))
count_verdict dscp_marked (c0 ∷ c1 ∷ c2 ∷ c3 ∷ c4 ∷ c5 ∷ []) no_mark (six, room) =
    absurd (no_mark refl)
count_verdict parse_short (c0 ∷ c1 ∷ c2 ∷ c3 ∷ c4 ∷ c5 ∷ []) no_mark (six, room) =
    omega (arith, no_wrap c5 (room 5))
count_verdict c _ no_mark (six, room) = absurd (omega arith)

ReasonFits-ne-dscp_marked : (ts : Bool) (c : Counter) → ReasonFits ts c → c ≢ dscp_marked
ReasonFits-ne-dscp_marked true normal fits e = fits
ReasonFits-ne-dscp_marked true ts_avtp fits e = cc
ReasonFits-ne-dscp_marked true ts_pcp fits e = cc
ReasonFits-ne-dscp_marked true ts_udp fits e = cc
ReasonFits-ne-dscp_marked true dscp_marked fits e = fits
ReasonFits-ne-dscp_marked true parse_short fits e = fits
ReasonFits-ne-dscp_marked false normal fits e = cc
ReasonFits-ne-dscp_marked false ts_avtp fits e = fits
ReasonFits-ne-dscp_marked false ts_pcp fits e = fits
ReasonFits-ne-dscp_marked false ts_udp fits e = fits
ReasonFits-ne-dscp_marked false dscp_marked fits e = fits
ReasonFits-ne-dscp_marked false parse_short fits e = cc

-- Counting a marked packet touches no other counter.
count-dscp_marked :
    (counters : List ℕ)
    → length counters ≡ 6
    → get_or counters 4 0 + 1 < 2 ^ 64
    → (verdicts (count dscp_marked counters) ≡ verdicts counters)
      × (get_or (count dscp_marked counters) 4 0 ≡ get_or counters 4 0 + 1)
unfolding count
count-dscp_marked (c0 ∷ c1 ∷ c2 ∷ c3 ∷ c4 ∷ c5 ∷ []) six room = omega (arith, no_wrap c4 room)
count-dscp_marked _ six room = absurd (omega arith)

-- What a run does: it passes the packet on to the next program; a packet that is not
-- time-sensitive is left as it is; one that is gets a priority other than 0, and of its bytes only
-- the TOS and the checksum of its IPv4 header can differ; the metadata of its VLAN tag stay; one
-- verdict is counted; and at most one marked packet is.
pub record Behaves (maps : Maps) (skb : Skb) (r : Result) : Type 0 where
  pub passes_on : r.retval ≡ tc_act_unspec
  pub counted : verdicts r.counters ≡ verdicts maps.ts_counters + 1
  pub marked :
      (get_or r.counters 4 0 ≡ get_or maps.ts_counters 4 0)
      ⊎ (get_or r.counters 4 0 ≡ get_or maps.ts_counters 4 0 + 1)
  pub left_alone :
      (reason : Counter) (ip_off : ℕ)
      → classify (config_of maps.ts_config) maps.ts_udp_ports skb ≡ verdict false reason ip_off
      → r.skb ≡ skb
  pub prioritised :
      (reason : Counter) (ip_off : ℕ)
      → classify (config_of maps.ts_config) maps.ts_udp_ports skb ≡ verdict true reason ip_off
      → (r.skb.priority ≢ 0)
        × (r.skb.vlan_present ≡ skb.vlan_present)
        × (r.skb.vlan_tci ≡ skb.vlan_tci)
        × SameElsewhere skb.bytes r.skb.bytes ip_off

nonzero_or-ne-zero : (x d : ℕ) → d ≢ 0 → nonzero_or x d ≢ 0
nonzero_or-ne-zero x d h = ground arith

verdict-injective :
    {ts ts' : Bool} {c c' : Counter} {o o' : ℕ}
    → verdict ts c o ≡ verdict ts' c' o'
    → (ts ≡ ts') × (c ≡ c') × (o ≡ o')
verdict-injective h = (cc, cc, cc)

and-false : (b : Bool) → (b && false) ≡ false
and-false true = refl
and-false false = refl

module _ (k : Kernel) (laws : KernelLaws k) where
  -- What is done after a time-sensitive packet was counted.
  record MarkBehaves (skb : Skb) (counters : List ℕ) (ip_off : ℕ) (r : Result) : Type 0 where
    passes_on : r.retval ≡ tc_act_unspec
    counted : verdicts r.counters ≡ verdicts counters
    marked :
        (get_or r.counters 4 0 ≡ get_or counters 4 0)
        ⊎ (get_or r.counters 4 0 ≡ get_or counters 4 0 + 1)
    priority_kept : r.skb.priority ≡ skb.priority
    present_kept : r.skb.vlan_present ≡ skb.vlan_present
    tci_kept : r.skb.vlan_tci ≡ skb.vlan_tci
    bytes_kept : SameElsewhere skb.bytes r.skb.bytes ip_off

  counters_after_mark :
      (code : ℤ) (counters : List ℕ)
      → length counters ≡ 6
      → get_or counters 4 0 + 1 < 2 ^ 64
      → let after = if ltb_ℤ (pos 0) code then count dscp_marked counters else counters in
        (verdicts after ≡ verdicts counters)
        × ((get_or after 4 0 ≡ get_or counters 4 0) ⊎ (get_or after 4 0 ≡ get_or counters 4 0 + 1))
  counters_after_mark code counters six room = elim (Bool-cases (ltb_ℤ (pos 0) code)) [
    | inl yes' ↦ let (same, one) = count-dscp_marked counters six room in rw yes' (same, inr one)
    | inr no' ↦ rw no' (refl, inl refl)
  ]

  untouched :
      (skb : Skb) (counters : List ℕ) (ip_off : ℕ)
      → MarkBehaves skb counters ip_off
          (record { retval = tc_act_unspec; skb = skb; counters = counters })
  untouched skb counters ip_off = record {
    passes_on = refl;
    counted = refl;
    marked = inl refl;
    priority_kept = refl;
    present_kept = refl;
    tci_kept = refl;
    bytes_kept = (refl, λ j p q r. refl);
  }

  mark-MarkBehaves :
      (cfg : TsConfig) (ip_off : ℕ) (skb : Skb) (counters : List ℕ)
      → (ip_off ≡ 0) ⊎ IsHeaderAt skb.bytes ip_off
      → length counters ≡ 6
      → get_or counters 4 0 + 1 < 2 ^ 64
      → MarkBehaves skb counters ip_off (mark k cfg ip_off skb counters)
  unfolding mark
  mark-MarkBehaves cfg ip_off skb counters (inl e) six room =
      rw (e, and-false (marks_dscp cfg)) (untouched skb counters 0)
  mark-MarkBehaves cfg ip_off skb counters (inr at) six room =
      let dscp = nonzero_or cfg.dscp ts_default_dscp % 2 ^ 8 % 2 ^ 6 in
      let m = mark_dscp k skb.bytes ip_off dscp in
      let (same, one) = counters_after_mark m.code counters six room in
      if_lem (MarkBehaves skb counters ip_off) (marks_dscp cfg && not (ip_off == 0))
        (record {
          passes_on = refl;
          counted = same;
          marked = one;
          priority_kept = refl;
          present_kept = refl;
          tci_kept = refl;
          bytes_kept = mark_dscp-SameElsewhere k laws skb.bytes ip_off dscp at;
        })
        (untouched skb counters ip_off)

  Behaves-verdict :
      (maps : Maps) (skb : Skb) (v : Verdict)
      → classify (config_of maps.ts_config) maps.ts_udp_ports skb ≡ v
      → IsSound skb.bytes v
      → HasRoom maps.ts_counters
      → (r : Result) × (ts_classifier k maps skb ≡ some r) × Behaves maps skb r
  unfolding ts_classifier
  Behaves-verdict maps skb fault e sound room = absurd sound
  Behaves-verdict maps skb (verdict false reason ip_off) e (fits, at) room =
      let one =
        count_verdict reason maps.ts_counters (ReasonFits-ne-dscp_marked false reason fits) room in
      let r : Result = record {
        retval = tc_act_unspec;
        skb = skb;
        counters = count reason maps.ts_counters;
      } in
      (
        r,
        rw (e, ts_classifier),
        record {
          passes_on = refl;
          counted = one.0;
          marked = inl one.1;
          left_alone = λ c o h. refl;
          prioritised = λ c o h. absurd (different c o (sym e ∙ h));
        },
      )
    where
      different : (c : Counter) (o : ℕ) → ¬ (verdict false reason ip_off ≡ verdict true c o)
      different c o h = cc
  Behaves-verdict maps skb (verdict true reason ip_off) e (fits, at) room =
      let one =
        count_verdict reason maps.ts_counters (ReasonFits-ne-dscp_marked true reason fits) room in
      let cfg = config_of maps.ts_config in
      let raised : Skb = record skb { priority = nonzero_or cfg.priority ts_default_priority } in
      let counters = count reason maps.ts_counters in
      let b = mark-MarkBehaves cfg ip_off raised counters at one.2 (rw (one.1) (room.1 4)) in
      (
        mark k cfg ip_off raised counters,
        rw (e, ts_classifier),
        record {
          passes_on = b.passes_on;
          counted = b.counted ∙ one.0;
          marked = rw one.1 at b.marked;
          left_alone = λ c o h. absurd (different c o (sym e ∙ h));
          prioritised = λ c o h. (
            λ zero_priority.
                nonzero_or-ne-zero cfg.priority ts_default_priority (omega arith)
                  (sym b.priority_kept ∙ zero_priority),
            b.present_kept,
            b.tci_kept,
            subst (SameElsewhere skb.bytes (mark k cfg ip_off raised counters).skb.bytes)
                (verdict-injective (sym e ∙ h)).2 b.bytes_kept,
          );
        },
      )
    where
      different : (c : Counter) (o : ℕ) → ¬ (verdict true reason ip_off ≡ verdict false c o)
      different c o h = cc

  -- On any packet, with any configuration and ports and with counters that are not about to wrap,
  -- the program reads nothing past the end of the packet, returns TC_ACT_UNSPEC, counts one verdict
  -- and at most one marked packet, leaves a packet alone that is not time-sensitive, and gives one
  -- that is a priority other than 0 without changing a byte outside the TOS and the checksum.
  pub ts_classifier-Behaves :
      (maps : Maps) (skb : Skb)
      → HasRoom maps.ts_counters
      → (r : Result) × (ts_classifier k maps skb ≡ some r) × Behaves maps skb r
  ts_classifier-Behaves maps skb room =
      Behaves-verdict maps skb (classify (config_of maps.ts_config) maps.ts_udp_ports skb) refl
        (classify-IsSound (config_of maps.ts_config) maps.ts_udp_ports skb) room
