-- ===== src/Tests/Packets.antt =====
-- A time-sensitive UDP packet with ECN bits through the classifier.
use time_sensitive_packet.Base.{
  ℕ, zero, suc, ◌+◌, ◌^◌, ◌<◌, ◌≡◌, ◌≢◌, refl, true, some, List, [], ◌∷◌, replicate, arith, ok,
  get_or,
}
use time_sensitive_packet.Base.Int.{negsuc}
use time_sensitive_packet.Harness.{Ipv4Args, udp_frame, parse_ipv4_tos_and_csum_ok, ip_checksum}
use time_sensitive_packet.Classifier.{TsConfig, Skb, Maps, ts_udp}
use time_sensitive_packet.Classifier.Parse.{
  verdict, classify, vlan_loop, classify_payload, classify_ip, classify_udp,
}
use time_sensitive_packet.Classifier.Parse.Safety.{IsSound, classify-IsSound, IsHeaderAt}
use time_sensitive_packet.Classifier.Mark.{mark_dscp}
use time_sensitive_packet.Classifier.Mark.Laws.{
  KeepsChecksum, SameElsewhere, mark_dscp-KeepsChecksum, mark_dscp-SameElsewhere,
}
use time_sensitive_packet.Classifier.Program.{Result, ts_classifier}
use time_sensitive_packet.Classifier.Program.Effects.{Behaves, HasRoom, ts_classifier-Behaves}
use time_sensitive_packet.Classifier.Program.Marking.{dscp_of, ts_classifier-KeepsChecksum}
use time_sensitive_packet.Tests.Kernel.{plain_kernel, plain_kernel_laws}

abbrev args : Ipv4Args
args = record {
  tos = 1;
  options = [];
  src = 10 ∷ 0 ∷ 0 ∷ 1 ∷ [];
  dst = 10 ∷ 0 ∷ 0 ∷ 2 ∷ [];
  ttl = 64;
  frag_off = 0;
}

-- The first 42 bytes of the frame that the harness builds for port 6000.
abbrev frame : List ℕ
frame =
    0xaa
    ∷ 0xbb
    ∷ 0xcc
    ∷ 0xdd
    ∷ 0xee
    ∷ 0xff
    ∷ 0x11
    ∷ 0x22
    ∷ 0x33
    ∷ 0x44
    ∷ 0x55
    ∷ 0x66
    ∷ 0x08
    ∷ 0x00
    ∷ 0x45
    ∷ 0x01
    ∷ 0x00
    ∷ 0x90
    ∷ 0x12
    ∷ 0x34
    ∷ 0x00
    ∷ 0x00
    ∷ 0x40
    ∷ 0x11
    ∷ 0x54
    ∷ 0x26
    ∷ 0x0a
    ∷ 0x00
    ∷ 0x00
    ∷ 0x01
    ∷ 0x0a
    ∷ 0x00
    ∷ 0x00
    ∷ 0x02
    ∷ 0x30
    ∷ 0x39
    ∷ 0x17
    ∷ 0x70
    ∷ 0x00
    ∷ 0x7c
    ∷ 0x00
    ∷ 0x00
    ∷ replicate 116 0

frame-built : udp_frame 6000 args ≡ ok frame
unfolding udp_frame
frame-built = refl

abbrev skb : Skb
skb = record { bytes = frame; vlan_present = 0; vlan_tci = 0; priority = 3 }

abbrev marking : TsConfig
marking = record { priority = 0; dscp = 0; flags = 1 }

abbrev maps : Maps
maps = record {
  ts_config = some marking;
  ts_udp_ports = [];
  ts_counters = 0 ∷ 0 ∷ 0 ∷ 7 ∷ 0 ∷ 0 ∷ [];
}

frame-classify : classify marking [] skb ≡ verdict true ts_udp 14
unfolding classify vlan_loop classify_payload classify_ip classify_udp
frame-classify = refl

frame-parse : parse_ipv4_tos_and_csum_ok frame 14 ≡ ok (1, true)
unfolding parse_ipv4_tos_and_csum_ok ip_checksum
frame-parse = refl

frame-IsHeaderAt : IsHeaderAt frame 14
frame-IsHeaderAt = record {
  after_ethernet = omega arith;
  inside = omega arith;
  first = 0x45;
  first_lem = refl;
  version_4 = omega arith;
  ihl_20 = omega arith;
}

counters-HasRoom : HasRoom (0 ∷ 0 ∷ 0 ∷ 7 ∷ 0 ∷ 0 ∷ [])
counters-HasRoom = (omega arith, small)
  where
    small : (i : ℕ) → get_or (0 ∷ 0 ∷ 0 ∷ 7 ∷ 0 ∷ 0 ∷ []) i 0 + 1 < 2 ^ 64
    small zero = omega arith
    small (suc zero) = omega arith
    small (suc (suc zero)) = omega arith
    small (suc (suc (suc zero))) = omega arith
    small (suc (suc (suc (suc zero)))) = omega arith
    small (suc (suc (suc (suc (suc zero))))) = omega arith
    small (suc (suc (suc (suc (suc (suc i)))))) = omega arith

marked_code : (mark_dscp plain_kernel frame 14 46).code ≢ negsuc 0
unfolding mark_dscp
marked_code h = cc

classify-IsSound_example : IsSound frame (classify marking [] skb)
classify-IsSound_example = classify-IsSound marking [] skb

mark_dscp-KeepsChecksum_example :
    KeepsChecksum frame (mark_dscp plain_kernel frame 14 46).bytes 14 46
mark_dscp-KeepsChecksum_example =
    mark_dscp-KeepsChecksum plain_kernel plain_kernel_laws frame 14 46 frame-IsHeaderAt
      (omega arith) marked_code

mark_dscp-SameElsewhere_example : SameElsewhere frame (mark_dscp plain_kernel frame 14 46).bytes 14
mark_dscp-SameElsewhere_example =
    mark_dscp-SameElsewhere plain_kernel plain_kernel_laws frame 14 46 frame-IsHeaderAt

ts_classifier-Behaves_example :
    (r : Result) × (ts_classifier plain_kernel maps skb ≡ some r) × Behaves maps skb r
ts_classifier-Behaves_example =
    ts_classifier-Behaves plain_kernel plain_kernel_laws maps skb counters-HasRoom

ts_classifier-KeepsChecksum_example :
    (r : Result) × (ts_classifier plain_kernel maps skb ≡ some r)
    × KeepsChecksum frame r.skb.bytes 14 (dscp_of marking)
ts_classifier-KeepsChecksum_example =
    ts_classifier-KeepsChecksum plain_kernel plain_kernel_laws maps skb ts_udp 14 frame-classify
      (omega arith) refl marked_code
