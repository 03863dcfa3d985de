-- ===== src/Harness/Checksum.antt =====
-- `ip_checksum` and the sum of a header's words.
use time_sensitive_packet.Base.{
  ℕ, zero, suc, ◌+◌, ◌-◌, ◌/◌, ◌%◌, ◌^◌, ◌≤◌, ◌<◌, ◌≡◌, ◌↔◌, List, ◌==◌, arith, Bool-cases, inl,
  inr,
}
use time_sensitive_packet.Harness.{word_sum, fold_carries, ip_checksum}

-- With fuel as large as the sum the loop ends with 16 bits, which are congruent to the sum modulo
-- 65535, and 0 only for 0.
pub fold_carries_lem :
    (fuel s : ℕ)
    → s ≤ fuel
    → (fold_carries fuel s < 2 ^ 16)
      × (fold_carries fuel s % 65535 ≡ s % 65535)
      × ((fold_carries fuel s ≡ 0) ↔ (s ≡ 0))
unfolding fold_carries
fold_carries_lem zero s h = omega arith
fold_carries_lem (suc fuel) s h = elim (Bool-cases (s / 2 ^ 16 == 0)) [
  | inl small ↦ rw (small) (ground arith)
  | inr large ↦
      let big : 2 ^ 16 ≤ s = ground arith in
      let ih = fold_carries_lem fuel (s % 2 ^ 16 + s / 2 ^ 16) (omega arith) in
      rw (large) (ground (arith, ih))
]

complement_lem :
    (f s : ℕ)
    → f < 2 ^ 16
    → f % 65535 ≡ s % 65535
    → (f ≡ 0) ↔ (s ≡ 0)
    → (2 ^ 16 - 1 - f % 2 ^ 16 ≡ 0) ↔ ((s % 65535 ≡ 0) × (0 < s))
complement_lem f s small same zeros = ground arith

pub ip_checksum-zero_iff :
    (hdr : List ℕ) → (ip_checksum hdr ≡ 0) ↔ ((word_sum hdr % 65535 ≡ 0) × (0 < word_sum hdr))
unfolding ip_checksum
ip_checksum-zero_iff hdr =
    let s = word_sum hdr in
    let f = fold_carries_lem s s (omega arith) in complement_lem (fold_carries s s) s f.0 f.1 f.2

-- The checksum is a 16-bit field, and it fills the words up to a multiple of 65535.
pub ip_checksum_lem :
    (hdr : List ℕ) → (ip_checksum hdr < 2 ^ 16) × ((word_sum hdr + ip_checksum hdr) % 65535 ≡ 0)
unfolding ip_checksum
ip_checksum_lem hdr =
    let s = word_sum hdr in let f = fold_carries_lem s s (omega arith) in omega (arith, f)
