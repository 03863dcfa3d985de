-- ===== src/Classifier/Program.antt =====
-- `ts_classifier`: the program itself.
pub mod Effects
pub mod Marking
use time_sensitive_packet.Base.{
  ℕ, suc, ◌+◌, ◌%◌, ◌^◌, Bool, true, false, ◌&&◌, not, Option, none, some, List, [], ◌∷◌, get_elem?,
  set, ◌==◌, if◌then◌else◌, ltb,
}
use time_sensitive_packet.Base.Int.{ℤ, pos, negsuc, ltb_ℤ}
use time_sensitive_packet.Classifier.Defs.{
  ts_default_priority, ts_default_dscp, Counter, dscp_marked, counter_index, TsConfig, zero_config,
  marks_dscp, Skb, Maps,
}
use time_sensitive_packet.Classifier.Parse.{Verdict, fault, verdict, classify}
use time_sensitive_packet.Classifier.Mark.{Kernel, Marked, mark_dscp}

-- TC_ACT_UNSPEC, which is TCX_NEXT.
abbrev pub tc_act_unspec : ℤ
tc_act_unspec = negsuc 0

-- `(*v)++` on a counter of 64 bits, if the map has the index.
unfoldable pub count : Counter → List ℕ → List ℕ
count c counters = elim (get_elem? counters (counter_index c)) [
  | none ↦ counters
  | some v ↦ set counters (counter_index c) ((v + 1) % 2 ^ 64)
]

pub record Result : Type 0 where
  pub retval : ℤ
  pub skb : Skb
  pub counters : List ℕ

abbrev pub config_of : Option TsConfig → TsConfig
config_of none = zero_config
config_of (some cfg) = cfg

abbrev pub nonzero_or : ℕ → ℕ → ℕ
nonzero_or x default = if x == 0 then default else x

module _ (k : Kernel) where
  -- What is done to a time-sensitive packet after it was counted.
  unfoldable pub mark : TsConfig → ℕ → Skb → List ℕ → Result
  unfolding count
  mark cfg ip_off skb counters =
      if marks_dscp cfg && not (ip_off == 0)
      then (let dscp = nonzero_or cfg.dscp ts_default_dscp % 2 ^ 8 % 2 ^ 6 in
          let m = mark_dscp k skb.bytes ip_off dscp in
          record {
            retval = tc_act_unspec;
            skb = record skb { bytes = m.bytes };
            counters = if ltb_ℤ (pos 0) m.code then count dscp_marked counters else counters;
          })
      else record { retval = tc_act_unspec; skb = skb; counters = counters }

  -- `none` is a read past the end of the packet.
  unfoldable pub ts_classifier : Maps → Skb → Option Result
  unfolding count mark
  ts_classifier maps skb =
      let cfg = config_of maps.ts_config in
      elim (classify cfg maps.ts_udp_ports skb) [
        | fault ↦ none
        | verdict false reason ip_off ↦
            some (record {
              retval = tc_act_unspec;
              skb = skb;
              counters = count reason maps.ts_counters;
            })
        | verdict true reason ip_off ↦ some (
            mark cfg ip_off (record skb { priority = nonzero_or cfg.priority ts_default_priority })
              (count reason maps.ts_counters))
      ]
