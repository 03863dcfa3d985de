-- ===== src/Classifier/Defs.antt =====
-- The constants of ts_common.h, the socket buffer as the program sees it, and the maps.
use time_sensitive_packet.Base.{
  ℕ, ◌+◌, ◌*◌, ◌/◌, ◌%◌, Bool, Option, none, some, List, get_elem?, ◌==◌,
}

abbrev pub ts_default_udp_port : ℕ
ts_default_udp_port = 6000

abbrev pub avtp_ethertype : ℕ
avtp_ethertype = 0x22f0

abbrev pub ts_vlan_pcp_min : ℕ
ts_vlan_pcp_min = 5

-- TC_PRIO_INTERACTIVE
abbrev pub ts_default_priority : ℕ
ts_default_priority = 6

abbrev pub ts_default_dscp : ℕ
ts_default_dscp = 46

-- Of linux/if_ether.h and linux/in.h.
abbrev pub eth_p_ip : ℕ
eth_p_ip = 0x0800

abbrev pub eth_p_8021q : ℕ
eth_p_8021q = 0x8100

abbrev pub eth_p_8021ad : ℕ
eth_p_8021ad = 0x88a8

abbrev pub ipproto_udp : ℕ
ipproto_udp = 17

-- `enum ts_counter`
pub data Counter : Type 0 where
  normal ts_avtp ts_pcp ts_udp dscp_marked parse_short : Counter

abbrev pub counter_index : Counter → ℕ
counter_index normal = 0
counter_index ts_avtp = 1
counter_index ts_pcp = 2
counter_index ts_udp = 3
counter_index dscp_marked = 4
counter_index parse_short = 5

-- `struct ts_config`, without its reserved word.
pub record TsConfig : Type 0 where
  pub priority : ℕ
  pub dscp : ℕ
  pub flags : ℕ

abbrev pub zero_config : TsConfig
zero_config = record { priority = 0; dscp = 0; flags = 0 }

-- The bits TS_CFG_MARK_DSCP and TS_CFG_DISABLE_UDP_DEFAULT of the flags.
abbrev pub marks_dscp : TsConfig → Bool
marks_dscp cfg = cfg.flags % 2 == 1

abbrev pub udp_default_off : TsConfig → Bool
udp_default_off cfg = cfg.flags / 2 % 2 == 1

-- The fields of `struct __sk_buff` that the program uses; `bytes` is what lies between `data` and
-- `data_end`.
pub record Skb : Type 0 where
  pub bytes : List ℕ
  pub vlan_present : ℕ
  pub vlan_tci : ℕ
  pub priority : ℕ

-- The maps: the entry 0 of `ts_config`, the keys of `ts_udp_ports`, and `ts_counters` on this CPU.
pub record Maps : Type 0 where
  pub ts_config : Option TsConfig
  pub ts_udp_ports : List ℕ
  pub ts_counters : List ℕ

-- Reads of one byte, and of a field of two bytes in network order. `none` is a read past the end.
abbrev pub load8 : List ℕ → ℕ → Option ℕ
load8 bytes off = get_elem? bytes off

abbrev pub both : Option ℕ → Option ℕ → Option ℕ
both (some a) (some b) = some (a * 256 + b)
both (some a) none = none
both none b = none

abbrev pub load16 : List ℕ → ℕ → Option ℕ
load16 bytes off = both (get_elem? bytes off) (get_elem? bytes (off + 1))
