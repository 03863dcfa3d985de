-- ===== src/Classifier/Mark/Laws.antt =====
-- `mark_dscp`: the header and the packet before and after.
use time_sensitive_packet.Base.{
  ℕ, suc, ◌+◌, ◌*◌, ◌/◌, ◌%◌, ◌≤◌, ◌<◌, ◌≡◌, ◌≢◌, refl, sym, ap, ◌∙◌, Bool, true, some, List, [],
  ◌∷◌, length, take, drop, set, get_elem?, get_or, ◌==◌, arith, Bool-cases, Option-cases, ==_iff,
  get_elem?-drop, get_elem?-set_ne, drop-drop, length-drop, length-set, ok, inl, inr,
}
use mathlib.Core.Path.{subst}
use time_sensitive_packet.Base.Int.{negsuc}
use time_sensitive_packet.Harness.{parse_ipv4_tos_and_csum_ok, parse_header, ip_checksum}
use time_sensitive_packet.Classifier.Parse.Safety.{IsHeaderAt}
use time_sensitive_packet.Classifier.Mark.{
  Kernel, KernelLaws, overwrite, Marked, put_tos, rewrite_tos, with_header, mark_dscp,
}
use time_sensitive_packet.Classifier.Mark.Checksum.{
  retagged, drop-overwrite, parse_lem, retagged_parse, parse_header_lem,
}

-- The first two bytes of a header, as they are loaded.
take_two :
    (header : List ℕ) (first : ℕ)
    → 12 ≤ length header
    → get_elem? header 0 ≡ some first
    → take 2 header ≡ first ∷ get_or header 1 0 ∷ []
take_two [] first h e = cc
take_two (a ∷ []) first h e = absurd (omega arith)
take_two (a ∷ b ∷ rest) first h e = cc

get_elem?-one :
    (header : List ℕ) → 12 ≤ length header → get_elem? header 1 ≡ some (get_or header 1 0)
get_elem?-one [] h = absurd (omega arith)
get_elem?-one (a ∷ []) h = absurd (omega arith)
get_elem?-one (a ∷ b ∷ rest) h = refl

new_tos_lem : (dscp t : ℕ) → dscp < 64 → (dscp * 4 + t % 4) % 256 ≡ dscp * 4 + t % 4
new_tos_lem dscp t h = omega arith

-- A verdict on the checksum after marking, as good as the one before.
abbrev pub KeepsChecksum : List ℕ → List ℕ → ℕ → ℕ → Type 0
KeepsChecksum bytes after off dscp =
    (tos : ℕ) × (c c' : Bool) × (parse_ipv4_tos_and_csum_ok bytes off ≡ ok (tos, c))
    × (parse_ipv4_tos_and_csum_ok after off ≡ ok (dscp * 4 + tos % 4, c'))
    × (c ≡ true → c' ≡ true)

module _ (k : Kernel) (laws : KernelLaws k) where
  loaded :
      (bytes : List ℕ) (off first dscp : ℕ)
      → off + 20 ≤ length bytes
      → get_elem? bytes off ≡ some first
      → mark_dscp k bytes off dscp
        ≡ rewrite_tos k bytes off dscp first (get_or (drop off bytes) 1 0)
  unfolding mark_dscp
  loaded bytes off first dscp h e =
      let zeroth : get_elem? (drop off bytes) 0 ≡ some first =
        get_elem?-drop off 0 bytes ∙ ap (λ j. get_elem? bytes j) (omega arith) ∙ e in
      let long : 12 ≤ length (drop off bytes) = omega (arith, length-drop off bytes) in
      ap (with_header k bytes off dscp) (
        laws.load_bytes_lem bytes off 2 (omega arith)
        ∙ ap some (take_two (drop off bytes) first long zeroth))

  -- The case in which both helpers succeed.
  stored_KeepsChecksum :
      (bytes updated stored : List ℕ) (off first dscp : ℕ)
      → IsHeaderAt bytes off
      → get_elem? bytes off ≡ some first
      → first / 16 ≡ 4
      → 20 ≤ first % 16 * 4
      → let tos = get_or (drop off bytes) 1 0 in
        let new_tos = dscp * 4 + tos % 4 in
        k.l3_csum_replace bytes (off + 10) (first + 256 * tos) (first + 256 * new_tos)
          ≡ some updated
        → k.store_bytes updated (off + 1) (new_tos ∷ []) ≡ some stored
        → KeepsChecksum bytes stored off dscp
  stored_KeepsChecksum bytes updated stored off first dscp at e v4 ihl p q =
      let header = drop off bytes in
      let tos = get_or header 1 0 in
      let new_tos = dscp * 4 + tos % 4 in
      let (lo, hi, _, _, rewritten, congruent) =
        laws.l3_csum_replace_lem bytes (off + 10) (first + 256 * tos) (first + 256 * new_tos)
          updated p in
      let result : drop off stored ≡ retagged header new_tos lo hi =
        ap (drop off) (laws.store_bytes_lem updated (off + 1) (new_tos ∷ []) stored q)
        ∙ ap (λ b. drop off (overwrite b (off + 1) (new_tos ∷ []))) rewritten
        ∙ drop-overwrite off new_tos lo hi bytes in
      let zeroth : get_elem? header 0 ≡ some first =
        get_elem?-drop off 0 bytes ∙ ap (λ j. get_elem? bytes j) (omega arith) ∙ e in
      let long : 12 ≤ length header = omega (arith, length-drop off bytes, at.inside) in
      let (c, c', before, after, kept) =
        retagged_parse header first new_tos lo hi long zeroth v4 ihl
          (rw (drop-drop off 10 bytes) congruent) in
      (
        tos,
        c,
        c',
        parse_lem bytes off ∙ before,
        parse_lem stored off ∙ ap (λ h. parse_header h (get_elem? h 0)) result ∙ after,
        kept,
      )

  -- The packet already has the DSCP.
  unchanged_KeepsChecksum :
      (bytes : List ℕ) (off dscp : ℕ)
      → (at : IsHeaderAt bytes off)
      → dscp * 4 + get_or (drop off bytes) 1 0 % 4 ≡ get_or (drop off bytes) 1 0
      → KeepsChecksum bytes bytes off dscp
  unchanged_KeepsChecksum bytes off dscp at same =
      let header = drop off bytes in
      let zeroth : get_elem? header 0 ≡ some at.first =
        get_elem?-drop off 0 bytes ∙ ap (λ j. get_elem? bytes j) (omega arith) ∙ at.first_lem in
      let long : 12 ≤ length header = omega (arith, length-drop off bytes, at.inside) in
      let c = ip_checksum (take (at.first % 16 * 4) header) == 0 in
      let read : parse_ipv4_tos_and_csum_ok bytes off ≡ ok (get_or header 1 0, c) =
        parse_lem bytes off
        ∙ parse_header_lem header at.first (get_or header 1 0) at.ihl_20 zeroth
            (get_elem?-one header long) in
      (get_or header 1 0, c, c, read, read ∙ ap (λ t. ok (t, c)) (sym same), λ h. h)

  abbrev MarksWell : List ℕ → ℕ → ℕ → Marked → Type 0
  MarksWell bytes off dscp m = m.code ≢ negsuc 0 → KeepsChecksum bytes m.bytes off dscp

  put_tos-MarksWell :
      (bytes : List ℕ) (off dscp : ℕ)
      → (at : IsHeaderAt bytes off)
      → MarksWell bytes off dscp (
          put_tos k bytes off at.first
            (get_or (drop off bytes) 1 0)
            (dscp * 4 + get_or (drop off bytes) 1 0 % 4))
  put_tos-MarksWell bytes off dscp at =
      let tos = get_or (drop off bytes) 1 0 in
      let new_tos = dscp * 4 + tos % 4 in
      elim (Bool-cases (new_tos == tos)) [
        | inl same ↦
            rw same (λ _. unchanged_KeepsChecksum bytes off dscp at ((==_iff new_tos tos).0 same))
        | inr other ↦
            elim (Option-cases (
              k.l3_csum_replace bytes (off + 10) (at.first + 256 * tos)
                (at.first + 256 * new_tos))) [
                  | inl p ↦ rw (other, p) (λ failed. absurd (failed refl))
                  | inr (updated, p) ↦
                      elim (Option-cases (k.store_bytes updated (off + 1) (new_tos ∷ []))) [
                        | inl q ↦ rw (other, p, q) (λ failed. absurd (failed refl))
                        | inr (stored, q) ↦
                            rw (other, p, q)
                              (λ _.
                                stored_KeepsChecksum bytes updated stored off at.first dscp at
                                  at.first_lem at.version_4 at.ihl_20 p q)
                      ]
                ]
      ]

  -- Unless a helper of the kernel fails, a packet whose header checksum was right has a right one
  -- afterwards, the DSCP is the given one, and the two ECN bits are those from before. (The offset
  -- is that of an IPv4 header that is in the packet.)
  pub mark_dscp-KeepsChecksum :
      (bytes : List ℕ) (off dscp : ℕ)
      → IsHeaderAt bytes off
      → dscp < 64
      → (mark_dscp k bytes off dscp).code ≢ negsuc 0
      → KeepsChecksum bytes (mark_dscp k bytes off dscp).bytes off dscp
  mark_dscp-KeepsChecksum bytes off dscp at small =
      subst (MarksWell bytes off dscp)
        (sym (
          loaded bytes off at.first dscp at.inside at.first_lem
          ∙ ap (put_tos k bytes off at.first (get_or (drop off bytes) 1 0))
              (new_tos_lem dscp (get_or (drop off bytes) 1 0) small)))
        (put_tos-MarksWell bytes off dscp at)

-- The same number of bytes, and the same ones outside the TOS byte and the checksum.
abbrev pub SameElsewhere : List ℕ → List ℕ → ℕ → Type 0
SameElsewhere bytes after off =
    (length after ≡ length bytes)
    × ((j : ℕ) → j ≢ off + 1 → j ≢ off + 10 → j ≢ off + 11 → get_elem? after j ≡ get_elem? bytes j)

SameElsewhere-check :
    (bytes : List ℕ) (off lo hi : ℕ)
    → SameElsewhere bytes (overwrite bytes (off + 10) (lo ∷ hi ∷ [])) off
SameElsewhere-check bytes off lo hi = (
  length-set (set bytes (off + 10) lo) (suc (off + 10)) hi ∙ length-set bytes (off + 10) lo,
  λ j p q r.
      get_elem?-set_ne (set bytes (off + 10) lo) (suc (off + 10)) j hi (omega arith)
      ∙ get_elem?-set_ne bytes (off + 10) j lo (omega arith),
)

SameElsewhere-tos :
    (bytes updated : List ℕ) (off v : ℕ)
    → SameElsewhere bytes updated off
    → SameElsewhere bytes (overwrite updated (off + 1) (v ∷ [])) off
SameElsewhere-tos bytes updated off v h = (
  length-set updated (off + 1) v ∙ h.0,
  λ j p q r. get_elem?-set_ne updated (off + 1) j v (omega arith) ∙ h.1 j p q r,
)

module _ (k : Kernel) (laws : KernelLaws k) where
  put_tos-SameElsewhere :
      (bytes : List ℕ) (off first tos new_tos : ℕ)
      → SameElsewhere bytes (put_tos k bytes off first tos new_tos).bytes off
  put_tos-SameElsewhere bytes off first tos new_tos = elim (Bool-cases (new_tos == tos)) [
    | inl same ↦ rw same (refl, λ j p q r. refl)
    | inr other ↦
        elim (Option-cases
          (k.l3_csum_replace bytes (off + 10) (first + 256 * tos) (first + 256 * new_tos))) [
            | inl p ↦ rw (other, p) (refl, λ j p q r. refl)
            | inr (updated, p) ↦
                let (lo, hi, _, _, rewritten, _) =
                  laws.l3_csum_replace_lem bytes (off + 10) (first + 256 * tos)
                    (first + 256 * new_tos) updated p in
                let checked : SameElsewhere bytes updated off =
                  subst (λ b. SameElsewhere bytes b off) (sym rewritten)
                    (SameElsewhere-check bytes off lo hi) in
                elim (Option-cases (k.store_bytes updated (off + 1) (new_tos ∷ []))) [
                  | inl q ↦ rw (other, p, q) checked
                  | inr (stored, q) ↦
                      rw (other, p, q)
                        (subst (λ b. SameElsewhere bytes b off)
                          (sym (laws.store_bytes_lem updated (off + 1) (new_tos ∷ []) stored q))
                          (SameElsewhere-tos bytes updated off new_tos checked))
                ]
          ]
  ]

  -- Marking, whether it succeeds or fails, changes no byte but the TOS and the checksum of the
  -- header, and no length.
  pub mark_dscp-SameElsewhere :
      (bytes : List ℕ) (off dscp : ℕ)
      → IsHeaderAt bytes off
      → SameElsewhere bytes (mark_dscp k bytes off dscp).bytes off
  mark_dscp-SameElsewhere bytes off dscp at =
      subst (λ m. SameElsewhere bytes m.bytes off)
        (sym (loaded k laws bytes off at.first dscp at.inside at.first_lem))
        (put_tos-SameElsewhere bytes off at.first (get_or (drop off bytes) 1 0)
          ((dscp * 4 + get_or (drop off bytes) 1 0 % 4) % 256))
