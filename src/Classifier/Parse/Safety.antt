-- ===== src/Classifier/Parse/Safety.antt =====
-- The reads of `classify`, its reason and its offset.
use time_sensitive_packet.Base.{
  ℕ, zero, suc, ◌+◌, ◌*◌, ◌/◌, ◌%◌, ◌^◌, ◌≤◌, ◌≡◌, refl, ◌⊎◌, Bool, true, false, not, ◌||◌, ◌&&◌,
  some, List, length, ltb, leb, ◌==◌, if◌then◌else◌, arith, if_lem, get_elem?, get_elem?-some,
  Bool-cases, inl, inr, nat_eq, contains,
}
use time_sensitive_packet.Classifier.Defs.{
  Counter, normal, ts_avtp, ts_pcp, ts_udp, dscp_marked, parse_short, TsConfig, Skb, load8, load16,
  udp_default_off, ts_default_udp_port, ipproto_udp, ts_vlan_pcp_min, avtp_ethertype, eth_p_ip,
  eth_p_8021q, eth_p_8021ad,
}
use time_sensitive_packet.Classifier.Parse.{
  Verdict, fault, verdict, done, is_pcp, by_port, match_port, match_header, classify_udp,
  classify_ip, classify_payload, vlan_loop, classify,
}

load16-some :
    (bytes : List ℕ) (off : ℕ) → off + 2 ≤ length bytes → (v : ℕ) × (load16 bytes off ≡ some v)
load16-some bytes off h =
    let (a, p) = get_elem?-some bytes off (omega arith) in
    let (b, q) = get_elem?-some bytes (off + 1) (omega arith) in (a * 256 + b, rw (p, q))

-- An IPv4 header of at least 20 bytes starts at `off` and its first 20 bytes are in the packet.
pub record IsHeaderAt (bytes : List ℕ) (off : ℕ) : Type 0 where
  pub after_ethernet : 14 ≤ off
  pub inside : off + 20 ≤ length bytes
  pub first : ℕ
  pub first_lem : get_elem? bytes off ≡ some first
  pub version_4 : first / 16 ≡ 4
  pub ihl_20 : 20 ≤ first % 16 * 4

-- Why a packet is time-sensitive, or why it is not.
abbrev pub ReasonFits : Bool → Counter → Type 0
ReasonFits true normal = ⊥
ReasonFits true dscp_marked = ⊥
ReasonFits true parse_short = ⊥
ReasonFits true _ = Unit
ReasonFits false normal = Unit
ReasonFits false parse_short = Unit
ReasonFits false _ = ⊥

abbrev pub IsSound : List ℕ → Verdict → Type 0
IsSound bytes fault = ⊥
IsSound bytes (verdict ts reason ip_off) =
    ReasonFits ts reason × ((ip_off ≡ 0) ⊎ IsHeaderAt bytes ip_off)

module _ (bytes : List ℕ) (cfg : TsConfig) (ports : List ℕ) where
  done-IsSound :
      (reason : Counter) (ip_off : ℕ)
      → (ip_off ≡ 0) ⊎ IsHeaderAt bytes ip_off
      → IsSound bytes (done reason ip_off)
  done-IsSound normal ip_off h = (tt, h)
  done-IsSound ts_pcp ip_off h = (tt, h)
  done-IsSound ts_avtp ip_off h = (tt, h)
  done-IsSound ts_udp ip_off h = (tt, h)
  done-IsSound dscp_marked ip_off h = (tt, h)
  done-IsSound parse_short ip_off h = (tt, h)

  by_port-IsSound :
      (reason : Counter) (ip_off : ℕ)
      → (ip_off ≡ 0) ⊎ IsHeaderAt bytes ip_off
      → IsSound bytes (by_port reason ip_off)
  by_port-IsSound ts_pcp ip_off h = (tt, h)
  by_port-IsSound normal ip_off h = (tt, h)
  by_port-IsSound ts_avtp ip_off h = (tt, h)
  by_port-IsSound ts_udp ip_off h = (tt, h)
  by_port-IsSound dscp_marked ip_off h = (tt, h)
  by_port-IsSound parse_short ip_off h = (tt, h)

  match_port-IsSound :
      (reason : Counter) (ip_off dport : ℕ)
      → (ip_off ≡ 0) ⊎ IsHeaderAt bytes ip_off
      → IsSound bytes (match_port bytes cfg ports reason ip_off dport)
  match_port-IsSound reason ip_off dport h =
      if_lem (IsSound bytes) (not (udp_default_off cfg) && (dport == ts_default_udp_port))
        (by_port-IsSound reason ip_off h)
        (if_lem (IsSound bytes) (contains dport ports) (by_port-IsSound reason ip_off h)
          (done-IsSound reason ip_off h))

  classify_udp-IsSound :
      (reason : Counter) (ip_off udp_off : ℕ)
      → (ip_off ≡ 0) ⊎ IsHeaderAt bytes ip_off
      → IsSound bytes (classify_udp bytes cfg ports reason ip_off udp_off)
  unfolding classify_udp
  classify_udp-IsSound reason ip_off udp_off h =
      elim (Bool-cases (ltb (length bytes) (udp_off + 8))) [
        | inl short ↦ rw short (done-IsSound reason ip_off h)
        | inr long ↦
            let (v, e) = load16-some bytes (udp_off + 2) (ground arith) in
            rw (long, e) (match_port-IsSound reason ip_off v h)
      ]

  match_header-IsSound :
      (reason : Counter) (off first frag_off protocol : ℕ)
      → 14 ≤ off
      → off + 20 ≤ length bytes
      → get_elem? bytes off ≡ some first
      → IsSound bytes (match_header bytes cfg ports reason off first frag_off protocol)
  match_header-IsSound reason off first frag_off protocol low fits e =
      elim (Bool-cases (first / 16 == 4)) [
        | inr other ↦ rw other (done-IsSound reason 0 (inl refl))
        | inl v4 ↦ elim (Bool-cases (ltb (first % 16 * 4) 20)) [
          | inl small ↦ rw (v4, small) (done-IsSound reason 0 (inl refl))
          | inr large ↦
              let here : IsHeaderAt bytes off = record {
                after_ethernet = low;
                inside = fits;
                first = first;
                first_lem = e;
                version_4 = ground arith;
                ihl_20 = ground arith;
              } in
              rw (v4, large)
                (if_lem (IsSound bytes) (not (frag_off % 2 ^ 14 == 0))
                  (done-IsSound reason 0 (inl refl))
                  (if_lem (IsSound bytes) (protocol == ipproto_udp)
                    (classify_udp-IsSound reason off (off + first % 16 * 4) (inr here))
                    (done-IsSound reason off (inr here))))
        ]
      ]

  -- The three bytes that are read of an IPv4 header that is inside the packet.
  header_read :
      (off : ℕ)
      → off + 20 ≤ length bytes
      → (a b c : ℕ) × (load8 bytes off ≡ some a)
        × (load16 bytes (off + 6) ≡ some b)
        × (load8 bytes (off + 9) ≡ some c)
  header_read off h =
      let (a, p) = get_elem?-some bytes off (omega arith) in
      let (b, q) = load16-some bytes (off + 6) (omega arith) in
      let (c, r) = get_elem?-some bytes (off + 9) (omega arith) in (a, b, c, p, q, r)

  classify_ip-IsSound :
      (reason : Counter) (off : ℕ)
      → 14 ≤ off
      → IsSound bytes (classify_ip bytes cfg ports reason off)
  unfolding classify_ip
  classify_ip-IsSound reason off low = elim (Bool-cases (ltb (length bytes) (off + 20))) [
    | inl short ↦ rw short (if_lem (IsSound bytes) (is_pcp reason) (tt, inl refl) (tt, inl refl))
    | inr long ↦
        let (a, b, c, p, q, r) = header_read off (ground arith) in
        rw (long, p, q, r) (match_header-IsSound reason off a b c low (ground arith) p)
  ]

  classify_payload-IsSound :
      (has_pcp : Bool) (pcp proto off : ℕ)
      → 14 ≤ off
      → IsSound bytes (classify_payload bytes cfg ports has_pcp pcp proto off)
  unfolding classify_payload
  classify_payload-IsSound has_pcp pcp proto off low =
      let reason : Counter = if has_pcp && leb ts_vlan_pcp_min pcp then ts_pcp else normal in
      if_lem (IsSound bytes) (proto == avtp_ethertype) (tt, inl refl)
        (if_lem (IsSound bytes) (proto == eth_p_ip) (classify_ip-IsSound reason off low)
          (done-IsSound reason 0 (inl refl)))

  vlan_loop-IsSound :
      (rounds : ℕ) (has_pcp : Bool) (pcp proto off : ℕ)
      → 14 ≤ off
      → IsSound bytes (vlan_loop bytes cfg ports rounds has_pcp pcp proto off)
  unfolding vlan_loop
  vlan_loop-IsSound zero has_pcp pcp proto off low =
      classify_payload-IsSound has_pcp pcp proto off low
  vlan_loop-IsSound (suc rounds) has_pcp pcp proto off low =
      elim (Bool-cases ((proto == eth_p_8021q) || (proto == eth_p_8021ad))) [
        | inr plain ↦ rw (plain, vlan_loop) (classify_payload-IsSound has_pcp pcp proto off low)
        | inl tag ↦ elim (Bool-cases (ltb (length bytes) (off + 4))) [
          | inl short ↦ rw (tag, short, vlan_loop) (tt, inl refl)
          | inr long ↦
              let (t, p) = load16-some bytes off (ground arith) in
              let (e, q) = load16-some bytes (off + 2) (ground arith) in
              rw (tag, long, vlan_loop, p, q)
                (vlan_loop-IsSound rounds true (if has_pcp then pcp else t / 2 ^ 13 % 8) e (off + 4)
                  (omega arith))
        ]
      ]

-- No read is past the end of the packet, whatever its bytes, the configuration and the ports are;
-- the reason is one of a time-sensitive packet exactly if 1 is returned; and an offset other than 0
-- is that of an IPv4 header of at least 20 bytes, of which 20 are in the packet.
pub classify-IsSound :
    (cfg : TsConfig) (ports : List ℕ) (skb : Skb) → IsSound skb.bytes (classify cfg ports skb)
unfolding classify
classify-IsSound cfg ports skb = elim (Bool-cases (ltb (length skb.bytes) 14)) [
  | inl short ↦ rw short (tt, inl refl)
  | inr long ↦
      let (p, e) = load16-some skb.bytes 12 (ground arith) in
      let tagged = not (skb.vlan_present == 0) in
      rw (long, e)
        (vlan_loop-IsSound skb.bytes cfg ports 2 tagged
          (if tagged then skb.vlan_tci / 2 ^ 13 % 8 else 0) p 14 (omega arith))
]
