-- ===== src/Classifier/Mark.antt =====
-- `mark_dscp`: rewriting the DSCP of an IPv4 header. The helpers of the kernel that it calls are
-- parameters; `none` is a negative result.
pub mod Checksum
pub mod Laws
use time_sensitive_packet.Base.{
  ℕ, suc, ◌+◌, ◌*◌, ◌%◌, ◌≤◌, ◌<◌, ◌≡◌, Bool, true, false, Option, none, some, List, [], ◌∷◌,
  length, take, drop, set, ◌==◌, if◌then◌else◌,
}
use time_sensitive_packet.Base.Int.{ℤ, pos, negsuc}
use time_sensitive_packet.Bytes.{le_value}

pub record Kernel : Type 0 where
  -- `bpf_skb_load_bytes(skb, off, to, len)`
  pub load_bytes : List ℕ → ℕ → ℕ → Option (List ℕ)
  -- `bpf_l3_csum_replace(skb, off, from, to, 2)`
  pub l3_csum_replace : List ℕ → ℕ → ℕ → ℕ → Option (List ℕ)
  -- `bpf_skb_store_bytes(skb, off, from, len, 0)`
  pub store_bytes : List ℕ → ℕ → List ℕ → Option (List ℕ)

-- Bytes written one after another.
abbrev pub overwrite : List ℕ → ℕ → List ℕ → List ℕ
overwrite bytes off [] = bytes
overwrite bytes off (v ∷ vs) = overwrite (set bytes off v) (suc off) vs

-- What bpf-helpers(7) says of the helpers. The checksum is updated incrementally: with the field
-- and the two words as they lie in memory, the new checksum plus `to` is congruent to the old one
-- plus `from`, modulo 65535 (RFC 1624).
pub record KernelLaws (k : Kernel) : Type 0 where
  pub load_bytes_lem :
      (bytes : List ℕ) (off len : ℕ)
      → off + len ≤ length bytes
      → k.load_bytes bytes off len ≡ some (take len (drop off bytes))
  pub store_bytes_lem :
      (bytes : List ℕ) (off : ℕ) (vs after : List ℕ)
      → k.store_bytes bytes off vs ≡ some after
      → after ≡ overwrite bytes off vs
  pub l3_csum_replace_lem :
      (bytes : List ℕ) (off from to : ℕ) (after : List ℕ)
      → k.l3_csum_replace bytes off from to ≡ some after
      → (lo hi : ℕ) × (lo < 256)
        × (hi < 256)
        × (after ≡ overwrite bytes off (lo ∷ hi ∷ []))
        × ((lo + 256 * hi + to) % 65535 ≡ (le_value (take 2 (drop off bytes)) + from) % 65535)

-- The value returned, -1, 0 or 1, and the packet afterwards.
pub record Marked : Type 0 where
  pub code : ℤ
  pub bytes : List ℕ

module _ (k : Kernel) where
  -- The checksum is updated first, then the byte is stored.
  abbrev pub put_tos : List ℕ → ℕ → ℕ → ℕ → ℕ → Marked
  put_tos bytes ip_off first old_tos new_tos =
      if new_tos == old_tos
      then record { code = pos 0; bytes = bytes }
      else elim (k.l3_csum_replace bytes (ip_off + 10) (first + 256 * old_tos)
          (first + 256 * new_tos)) [
            | none ↦ record { code = negsuc 0; bytes = bytes }
            | some updated ↦ elim (k.store_bytes updated (ip_off + 1) (new_tos ∷ [])) [
              | none ↦ record { code = negsuc 0; bytes = updated }
              | some stored ↦ record { code = pos 1; bytes = stored }
            ]
          ]

  -- `hdr` holds the first two bytes of the header. The DSCP has six bits, so the two fields do not
  -- overlap and their `|` is a sum.
  abbrev pub rewrite_tos : List ℕ → ℕ → ℕ → ℕ → ℕ → Marked
  rewrite_tos bytes ip_off dscp first old_tos =
      put_tos bytes ip_off first old_tos ((dscp * 4 + old_tos % 4) % 256)

  abbrev pub with_header : List ℕ → ℕ → ℕ → Option (List ℕ) → Marked
  with_header bytes ip_off dscp (some (first ∷ old_tos ∷ [])) =
      rewrite_tos bytes ip_off dscp first old_tos
  with_header bytes ip_off dscp _ = record { code = negsuc 0; bytes = bytes }

  unfoldable pub mark_dscp : List ℕ → ℕ → ℕ → Marked
  mark_dscp bytes ip_off dscp = with_header bytes ip_off dscp (k.load_bytes bytes ip_off 2)
