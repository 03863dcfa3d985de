-- ===== src/Classifier/Program/Marking.antt =====
-- The marking branch of `ts_classifier`.
use time_sensitive_packet.Base.{
  ℕ, ◌%◌, ◌^◌, ◌≡◌, ◌≢◌, sym, ◌⊎◌, inl, inr, true, false, some, List, ◌==◌, arith,
}
use mathlib.Core.Path.{subst}
use time_sensitive_packet.Base.Int.{negsuc}
use time_sensitive_packet.Classifier.Defs.{
  ts_default_priority, ts_default_dscp, Counter, TsConfig, marks_dscp, Skb, Maps,
}
use time_sensitive_packet.Classifier.Parse.{verdict, classify}
use time_sensitive_packet.Classifier.Parse.Safety.{IsHeaderAt, IsSound, classify-IsSound}
use time_sensitive_packet.Classifier.Mark.{Kernel, KernelLaws, mark_dscp}
use time_sensitive_packet.Classifier.Mark.Laws.{KeepsChecksum, mark_dscp-KeepsChecksum}
use time_sensitive_packet.Classifier.Program.{
  count, Result, config_of, nonzero_or, mark, ts_classifier,
}

-- The DSCP of a configuration: 46 for 0, and otherwise the low six bits.
abbrev pub dscp_of : TsConfig → ℕ
dscp_of cfg = nonzero_or cfg.dscp ts_default_dscp % 2 ^ 8 % 2 ^ 6

header_at :
    (cfg : TsConfig) (ports : List ℕ) (skb : Skb) (reason : Counter) (ip_off : ℕ)
    → classify cfg ports skb ≡ verdict true reason ip_off
    → ip_off ≢ 0
    → IsHeaderAt skb.bytes ip_off
header_at cfg ports skb reason ip_off e nonzero =
    pick (subst (IsSound skb.bytes) e (classify-IsSound cfg ports skb)).1
  where
    pick : (ip_off ≡ 0) ⊎ IsHeaderAt skb.bytes ip_off → IsHeaderAt skb.bytes ip_off
    pick (inl z) = absurd (nonzero z)
    pick (inr at) = at

module _ (k : Kernel) (laws : KernelLaws k) where
  marked_bytes :
      (cfg : TsConfig) (ip_off : ℕ) (skb : Skb) (counters : List ℕ)
      → marks_dscp cfg ≡ true
      → ip_off ≢ 0
      → (mark k cfg ip_off skb counters).skb.bytes
        ≡ (mark_dscp k skb.bytes ip_off (dscp_of cfg)).bytes
  unfolding mark
  marked_bytes cfg ip_off skb counters on nonzero = rw (on, not_zero ip_off nonzero)
    where
      not_zero : (n : ℕ) → n ≢ 0 → (n == 0) ≡ false
      not_zero n h = ground arith

  -- A time-sensitive IPv4 packet, in a configuration that marks: unless a helper of the kernel
  -- fails, the packet that leaves has the configured DSCP and the ECN bits from before, and its
  -- header checksum verifies if it did before.
  pub ts_classifier-KeepsChecksum :
      (maps : Maps) (skb : Skb) (reason : Counter) (ip_off : ℕ)
      → let cfg = config_of maps.ts_config in
        classify cfg maps.ts_udp_ports skb ≡ verdict true reason ip_off
        → ip_off ≢ 0
        → marks_dscp cfg ≡ true
        → (mark_dscp k skb.bytes ip_off (dscp_of cfg)).code ≢ negsuc 0
        → (r : Result) × (ts_classifier k maps skb ≡ some r)
          × KeepsChecksum skb.bytes r.skb.bytes ip_off (dscp_of cfg)
  unfolding ts_classifier
  ts_classifier-KeepsChecksum maps skb reason ip_off e nonzero on no_error =
      let cfg = config_of maps.ts_config in
      let raised : Skb = record skb { priority = nonzero_or cfg.priority ts_default_priority } in
      let counters = count reason maps.ts_counters in
      (
        mark k cfg ip_off raised counters,
        rw (e, ts_classifier),
        subst (λ b. KeepsChecksum skb.bytes b ip_off (dscp_of cfg))
            (sym (marked_bytes cfg ip_off raised counters on nonzero))
            (mark_dscp-KeepsChecksum k laws skb.bytes ip_off (dscp_of cfg)
              (header_at cfg maps.ts_udp_ports skb reason ip_off e nonzero) (omega arith) no_error),
      )
