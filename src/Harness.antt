-- ===== src/Harness.antt =====
-- bpf/tests/bpf_harness.py: the frames that the tests send through the classifier, and the header
-- checksum. Addresses are given as their bytes, and `bytes` objects as lists of bytes.
pub mod Checksum
use Prim.Native.Nat.{bit_or}
use time_sensitive_packet.Base.{
  ℕ, zero, suc, ◌+◌, ◌-◌, ◌*◌, ◌/◌, ◌%◌, ◌^◌, Bool, true, false, not, List, [], ◌∷◌, ◌++◌, length,
  take, drop, replicate, ltb, ◌==◌, if◌then◌else◌, Option, none, some, get_elem?, Result, ok, err,
  Exception, struct_error, assertion_error, index_error, raise_if, ◌>>=◌, ◌>>◌,
}
use time_sensitive_packet.Bytes.{be_bytes}

-- The sum of the 16-bit words in network order, an odd last byte being padded with 0.
abbrev pub word_sum : List ℕ → ℕ
word_sum [] = 0
word_sum (a ∷ []) = a * 256
word_sum (a ∷ b ∷ bs) = a * 256 + b + word_sum bs

-- `while s >> 16: s = (s & 0xFFFF) + (s >> 16)`, with fuel.
unfoldable pub fold_carries : ℕ → ℕ → ℕ
fold_carries zero s = s
fold_carries (suc fuel) s =
    let rest = fold_carries fuel (s % 2 ^ 16 + s / 2 ^ 16) in if s / 2 ^ 16 == 0 then s else rest

-- `(~s) & 0xFFFF`; the sum itself is fuel enough.
unfoldable pub ip_checksum : List ℕ → ℕ
unfolding fold_carries
ip_checksum hdr = let s = word_sum hdr in 2 ^ 16 - 1 - fold_carries s s % 2 ^ 16

-- `struct.pack` of one unsigned field in network order.
abbrev pub pack : ℕ → ℕ → Result (List ℕ)
pack width x = if ltb x (256 ^ width) then ok (be_bytes width x) else err struct_error

-- The field `4s`: cut or padded to four bytes.
abbrev pub four : List ℕ → List ℕ
four bs = take 4 (bs ++ replicate 4 0)

unfoldable pub eth : ℕ → List ℕ → List ℕ → List ℕ → Result (List ℕ)
eth ethertype payload dst src = do kind ← pack 2 ethertype; ok (dst ++ src ++ kind ++ payload)

unfoldable pub vlan : ℕ → ℕ → ℕ → List ℕ → Result (List ℕ)
vlan pcp vid inner_ethertype payload = do
  tci ← pack 2 (bit_or (pcp * 2 ^ 13) (vid % 2 ^ 12))
  kind ← pack 2 inner_ethertype
  ok (tci ++ kind ++ payload)

unfoldable pub udp : ℕ → List ℕ → ℕ → Result (List ℕ)
udp dport payload sport = do
  s ← pack 2 sport
  d ← pack 2 dport
  n ← pack 2 (8 + length payload)
  z ← pack 2 0
  ok (s ++ d ++ n ++ z ++ payload)

-- The keyword arguments of `ipv4`.
pub record Ipv4Args : Type 0 where
  pub tos : ℕ
  pub options : List ℕ
  pub src : List ℕ
  pub dst : List ℕ
  pub ttl : ℕ
  pub frag_off : ℕ

-- The header before its checksum is put in.
unfoldable pub ipv4_header : ℕ → ℕ → Ipv4Args → Result (List ℕ)
ipv4_header proto total a = do
  b0 ← pack 1 (bit_or (4 * 2 ^ 4) (5 + length a.options / 4))
  b1 ← pack 1 a.tos
  len ← pack 2 total
  id ← pack 2 0x1234
  frag ← pack 2 a.frag_off
  ttl ← pack 1 a.ttl
  p ← pack 1 proto
  check ← pack 2 0
  ok (b0 ++ b1 ++ len ++ id ++ frag ++ ttl ++ p ++ check ++ four a.src ++ four a.dst ++ a.options)

unfoldable pub ipv4 : ℕ → List ℕ → Ipv4Args → Result (List ℕ)
unfolding ipv4_header ip_checksum
ipv4 proto payload a = do
  raise_if (not (length a.options % 4 == 0)) assertion_error
  hdr ← ipv4_header proto ((5 + length a.options / 4) * 4 + length payload) a
  check ← pack 2 (ip_checksum hdr)
  ok ((take 10 hdr ++ check ++ drop 12 hdr) ++ payload)

-- The addresses that the tests use.
abbrev pub dst_mac : List ℕ
dst_mac = 0xaa ∷ 0xbb ∷ 0xcc ∷ 0xdd ∷ 0xee ∷ 0xff ∷ []

abbrev pub src_mac : List ℕ
src_mac = 0x11 ∷ 0x22 ∷ 0x33 ∷ 0x44 ∷ 0x55 ∷ 0x66 ∷ []

unfoldable pub udp_frame : ℕ → Ipv4Args → Result (List ℕ)
unfolding udp ipv4 eth
udp_frame dport a = do
  u ← udp dport (replicate 116 0) 12345
  p ← ipv4 17 u a
  eth 0x0800 p dst_mac src_mac

-- The pair that is returned for a header, by its byte 1.
abbrev pub tos_and_csum_ok : List ℕ → Option ℕ → Result (ℕ × Bool)
tos_and_csum_ok hdr none = err index_error
tos_and_csum_ok hdr (some tos) = ok (tos, ip_checksum hdr == 0)

-- The header is as many bytes of the rest of the frame as its first byte says.
abbrev pub parse_header : List ℕ → Option ℕ → Result (ℕ × Bool)
parse_header rest none = err index_error
parse_header rest (some first) =
    let hdr = take (first % 16 * 4) rest in tos_and_csum_ok hdr (get_elem? hdr 1)

unfoldable pub parse_ipv4_tos_and_csum_ok : List ℕ → ℕ → Result (ℕ × Bool)
parse_ipv4_tos_and_csum_ok frame ip_off = parse_header (drop ip_off frame) (get_elem? frame ip_off)
