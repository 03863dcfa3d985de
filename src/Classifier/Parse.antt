-- ===== src/Classifier/Parse.antt =====
-- `classify`: whether a packet is time-sensitive, and why. Fields in network order are compared
-- after conversion, where the C code converts the constants.
pub mod Safety
use time_sensitive_packet.Base.{
  ℕ, zero, suc, ◌+◌, ◌*◌, ◌/◌, ◌%◌, ◌^◌, Bool, true, false, ◌&&◌, ◌||◌, not, Option, none, some,
  List, length, ltb, leb, ◌==◌, if◌then◌else◌, nat_eq, contains,
}
use time_sensitive_packet.Classifier.Defs.{
  ts_default_udp_port, avtp_ethertype, ts_vlan_pcp_min, eth_p_ip, eth_p_8021q, eth_p_8021ad,
  ipproto_udp, Counter, normal, ts_avtp, ts_pcp, ts_udp, parse_short, TsConfig, udp_default_off,
  Skb, load8, load16,
}

-- `fault` is a read past `data_end`. Otherwise the value returned and the two fields of
-- `struct parse_result`.
pub data Verdict : Type 0 where
  fault : Verdict
  verdict : (ts : Bool) → (reason : Counter) → (ip_off : ℕ) → Verdict

infixl 5 ◌>>=◌
abbrev pub ◌>>=◌ : Option ℕ → (ℕ → Verdict) → Verdict
none >>= k = fault
some x >>= k = k x

abbrev pub is_pcp : Counter → Bool
is_pcp ts_pcp = true
is_pcp _ = false

-- The code at the label `done`.
abbrev pub done : Counter → ℕ → Verdict
done reason ip_off =
    if is_pcp reason then verdict true ts_pcp ip_off else verdict false normal ip_off

-- The two places where a port makes the packet time-sensitive.
abbrev pub by_port : Counter → ℕ → Verdict
by_port reason ip_off = verdict true (if is_pcp reason then ts_pcp else ts_udp) ip_off

module _ (bytes : List ℕ) (cfg : TsConfig) (ports : List ℕ) where
  -- The two tests of a destination port.
  abbrev pub match_port : Counter → ℕ → ℕ → Verdict
  match_port reason ip_off dport =
      if not (udp_default_off cfg) && (dport == ts_default_udp_port)
      then by_port reason ip_off
      else (if contains dport ports then by_port reason ip_off else done reason ip_off)

  -- The UDP header at `udp_off`.
  unfoldable pub classify_udp : Counter → ℕ → ℕ → Verdict
  classify_udp reason ip_off udp_off =
      if ltb (length bytes) (udp_off + 8)
      then done reason ip_off
      else do dport ← load16 bytes (udp_off + 2); match_port reason ip_off dport

  -- The tests of an IPv4 header at `off`, by its first byte, its fragment field and its protocol:
  -- another version, a length below 20 bytes and a fragment end the search.
  abbrev pub match_header : Counter → ℕ → ℕ → ℕ → ℕ → Verdict
  match_header reason off first frag_off protocol =
      if not (first / 16 == 4)
      then done reason 0
      else (if ltb (first % 16 * 4) 20
          then done reason 0
          else (if not (frag_off % 2 ^ 14 == 0)
              then done reason 0
              else (if protocol == ipproto_udp
                  then classify_udp reason off (off + first % 16 * 4)
                  else done reason off)))

  -- The IPv4 header at `off`; `reason` says whether the PCP has decided.
  unfoldable pub classify_ip : Counter → ℕ → Verdict
  classify_ip reason off =
      if ltb (length bytes) (off + 20)
      then (if is_pcp reason then verdict true ts_pcp 0 else verdict false parse_short 0)
      else do
        first ← load8 bytes off
        frag_off ← load16 bytes (off + 6)
        protocol ← load8 bytes (off + 9)
        match_header reason off first frag_off protocol

  -- What follows the tags: `proto` is the EtherType of the payload at `off`.
  unfoldable pub classify_payload : Bool → ℕ → ℕ → ℕ → Verdict
  classify_payload has_pcp pcp proto off =
      if proto == avtp_ethertype
      then verdict true ts_avtp 0
      else (let reason : Counter = if has_pcp && leb ts_vlan_pcp_min pcp then ts_pcp else normal in
          if proto == eth_p_ip then classify_ip reason off else done reason 0)

  -- The loop over the tags in the packet, with the rounds that are left.
  unfoldable pub vlan_loop : ℕ → Bool → ℕ → ℕ → ℕ → Verdict
  vlan_loop zero has_pcp pcp proto off = classify_payload has_pcp pcp proto off
  vlan_loop (suc rounds) has_pcp pcp proto off =
      elim ((proto == eth_p_8021q) || (proto == eth_p_8021ad)) [
        | false ↦ classify_payload has_pcp pcp proto off
        | true ↦ elim (ltb (length bytes) (off + 4)) [
          | true ↦ verdict false parse_short 0
          | false ↦ (do
            tci ← load16 bytes off
            encap_proto ← load16 bytes (off + 2)
            vlan_loop rounds true (if has_pcp then pcp else tci / 2 ^ 13 % 8) encap_proto (off + 4))
        ]
      ]

unfoldable pub classify : TsConfig → List ℕ → Skb → Verdict
classify cfg ports skb = if ltb (length skb.bytes) 14 then verdict false parse_short 0 else do
  proto ← load16 skb.bytes 12
  let tagged = not (skb.vlan_present == 0)
  vlan_loop skb.bytes cfg ports 2 tagged (if tagged then skb.vlan_tci / 2 ^ 13 % 8 else 0) proto 14
