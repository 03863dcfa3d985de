-- ===== src/Classifier/Mark/Checksum.antt =====
-- The header checksum under the two writes of `mark_dscp`.
use time_sensitive_packet.Base.{
  ℕ, zero, suc, ◌+◌, ◌-◌, ◌*◌, ◌/◌, ◌%◌, ◌≤◌, ◌<◌, ◌≡◌, refl, sym, ap, ◌∙◌, Bool, true, some, List,
  [], ◌∷◌, length, take, drop, set, get_elem?, get_or, ◌==◌, arith, ==_iff, get_elem?-drop,
  get_elem?-take, ok,
}
use mathlib.Core.Path.{subst}
use time_sensitive_packet.Bytes.{le_value}
use time_sensitive_packet.Harness.{word_sum, ip_checksum, parse_header, parse_ipv4_tos_and_csum_ok}
use time_sensitive_packet.Harness.Checksum.{ip_checksum-zero_iff}
use time_sensitive_packet.Classifier.Mark.{overwrite}

drop-set :
    (off i j v : ℕ) (bytes : List ℕ)
    → j ≡ off + i
    → drop off (set bytes j v) ≡ set (drop off bytes) i v
drop-set zero i j v bytes e = ap (λ k. set bytes k v) (omega arith)
drop-set (suc off) i zero v bytes e = absurd (omega arith)
drop-set (suc off) i (suc j) v [] e = refl
drop-set (suc off) i (suc j) v (b ∷ bytes) e = drop-set off i j v bytes (omega arith)

-- Setting the TOS byte and the checksum of a header changes the sum of its words by the differences.
sum_change_12 :
    (r : ℕ) (header : List ℕ) (tos lo hi : ℕ)
    → 12 ≤ length header
    → let n = suc (suc (suc (suc (suc (suc (suc (suc (suc (suc (suc (suc r))))))))))) in
      word_sum (take n (set (set (set header 10 lo) 11 hi) 1 tos))
        + get_or header 1 0
        + 256 * get_or header 10 0
        + get_or header 11 0
      ≡ word_sum (take n header) + tos + 256 * lo + hi
sum_change_12 r (b0 ∷ b1 ∷ b2 ∷ b3 ∷ b4 ∷ b5 ∷ b6 ∷ b7 ∷ b8 ∷ b9 ∷ b10 ∷ b11 ∷ rest) tos lo hi h =
    omega arith
sum_change_12 r _ tos lo hi h = absurd (omega arith)

sum_change :
    (n : ℕ) (header : List ℕ) (tos lo hi : ℕ)
    → 12 ≤ n
    → 12 ≤ length header
    → word_sum (take n (set (set (set header 10 lo) 11 hi) 1 tos))
        + get_or header 1 0
        + 256 * get_or header 10 0
        + get_or header 11 0
      ≡ word_sum (take n header) + tos + 256 * lo + hi
sum_change n header tos lo hi h l =
    let e : suc (suc (suc (suc (suc (suc (suc (suc (suc (suc (suc (suc (n - 12)))))))))))) ≡ n =
      omega arith in
    subst
      (λ k.
        word_sum (take k (set (set (set header 10 lo) 11 hi) 1 tos))
          + get_or header 1 0
          + 256 * get_or header 10 0
          + get_or header 11 0
        ≡ word_sum (take k header) + tos + 256 * lo + hi)
      e (sum_change_12 (n - 12) header tos lo hi l)

-- The words of a header, the checksum and the TOS changed as the kernel does, add up to the same
-- modulo 65535.
sum_kept :
    (s s' first old_tos new_tos c0 c1 lo hi : ℕ)
    → s' + old_tos + 256 * c0 + c1 ≡ s + new_tos + 256 * lo + hi
    → (lo + 256 * hi + (first + 256 * new_tos)) % 65535
      ≡ (c0 + 256 * c1 + (first + 256 * old_tos)) % 65535
    → s' % 65535 ≡ s % 65535
sum_kept s s' first old_tos new_tos c0 c1 lo hi e m = omega arith

-- The bytes of a marked header, `header` being the packet from the header on.
abbrev pub retagged : List ℕ → ℕ → ℕ → ℕ → List ℕ
retagged header tos lo hi = set (set (set header 10 lo) 11 hi) 1 tos

pub drop-overwrite :
    (off tos lo hi : ℕ) (bytes : List ℕ)
    → drop off (overwrite (overwrite bytes (off + 10) (lo ∷ hi ∷ [])) (off + 1) (tos ∷ []))
      ≡ retagged (drop off bytes) tos lo hi
drop-overwrite off tos lo hi bytes =
    drop-set off 1 (off + 1) tos (set (set bytes (off + 10) lo) (suc (off + 10)) hi) refl
    ∙ ap (λ h. set h 1 tos)
        (drop-set off 11 (suc (off + 10)) hi (set bytes (off + 10) lo) (omega arith)
          ∙ ap (λ h. set h 11 hi) (drop-set off 10 (off + 10) lo bytes refl))

-- A frame is read at an offset as what follows the offset, by its first byte.
pub parse_lem :
    (bytes : List ℕ) (off : ℕ)
    → parse_ipv4_tos_and_csum_ok bytes off
      ≡ parse_header (drop off bytes) (get_elem? (drop off bytes) 0)
unfolding parse_ipv4_tos_and_csum_ok
parse_lem bytes off =
    ap (parse_header (drop off bytes))
      (sym (get_elem?-drop off 0 bytes ∙ ap (λ j. get_elem? bytes j) (omega arith)))

-- What is read of a header that has at least 20 bytes and begins with the given two.
pub parse_header_lem :
    (header : List ℕ) (first tos : ℕ)
    → 20 ≤ first % 16 * 4
    → get_elem? header 0 ≡ some first
    → get_elem? header 1 ≡ some tos
    → parse_header header (get_elem? header 0)
      ≡ ok (tos, ip_checksum (take (first % 16 * 4) header) == 0)
parse_header_lem header first tos long p q =
    rw (p, get_elem?-take (first % 16 * 4) 1 header (omega arith), q)

-- A header whose words are changed by nothing modulo 65535 keeps a right checksum.
checksum_kept :
    (hdr hdr' : List ℕ)
    → word_sum hdr' % 65535 ≡ word_sum hdr % 65535
    → 0 < word_sum hdr'
    → (ip_checksum hdr == 0) ≡ true
    → (ip_checksum hdr' == 0) ≡ true
checksum_kept hdr hdr' same positive h =
    let right = (ip_checksum-zero_iff hdr).0 ((==_iff (ip_checksum hdr) 0).0 h) in
    (==_iff (ip_checksum hdr') 0).1 ((ip_checksum-zero_iff hdr').1 (same ∙ right.0, positive))

-- The bytes of a header of at least 12 bytes, before and after it was marked.
retagged_bytes :
    (header : List ℕ) (tos lo hi : ℕ)
    → 12 ≤ length header
    → (get_elem? (retagged header tos lo hi) 0 ≡ get_elem? header 0)
      × (get_elem? (retagged header tos lo hi) 1 ≡ some tos)
      × (get_elem? header 1 ≡ some (get_or header 1 0))
      × (le_value (take 2 (drop 10 header)) ≡ get_or header 10 0 + 256 * get_or header 11 0)
retagged_bytes (b0 ∷ b1 ∷ b2 ∷ b3 ∷ b4 ∷ b5 ∷ b6 ∷ b7 ∷ b8 ∷ b9 ∷ b10 ∷ b11 ∷ rest) tos lo hi h =
    (refl, refl, refl, omega arith)
retagged_bytes _ tos lo hi h = absurd (omega arith)

word_sum-pos : (hdr : List ℕ) (a : ℕ) → get_elem? hdr 0 ≡ some a → 0 < a → 0 < word_sum hdr
word_sum-pos [] a e h = cc
word_sum-pos (b ∷ []) a e h = ground arith
word_sum-pos (b ∷ c ∷ bs) a e h = ground arith

-- What the kernel's congruence says of the header.
abbrev pub IsUpdated : List ℕ → ℕ → ℕ → ℕ → ℕ → Type 0
IsUpdated header first tos lo hi =
    (lo + 256 * hi + (first + 256 * tos)) % 65535
    ≡ (le_value (take 2 (drop 10 header)) + (first + 256 * get_or header 1 0)) % 65535

pub retagged_parse :
    (header : List ℕ) (first tos lo hi : ℕ)
    → 12 ≤ length header
    → get_elem? header 0 ≡ some first
    → first / 16 ≡ 4
    → 20 ≤ first % 16 * 4
    → IsUpdated header first tos lo hi
    → (c c' : Bool) × (parse_header header (get_elem? header 0) ≡ ok (get_or header 1 0, c))
      × (parse_header (retagged header tos lo hi) (get_elem? (retagged header tos lo hi) 0)
          ≡ ok (tos, c'))
      × (c ≡ true → c' ≡ true)
retagged_parse header first tos lo hi long p v4 ihl updated =
    let (zeroth, new, old, check) = retagged_bytes header tos lo hi long in
    let n = first % 16 * 4 in
    let after = retagged header tos lo hi in
    let same : word_sum (take n after) % 65535 ≡ word_sum (take n header) % 65535 =
      sum_kept (word_sum (take n header)) (word_sum (take n after)) first (get_or header 1 0) tos
        (get_or header 10 0) (get_or header 11 0) lo hi
        (sum_change n header tos lo hi (omega arith) long) (rw check at updated) in
    let positive : 0 < word_sum (take n after) =
      word_sum-pos (take n after) first (get_elem?-take n 0 after (omega arith) ∙ zeroth ∙ p)
        (omega arith) in
    (
      ip_checksum (take n header) == 0,
      ip_checksum (take n after) == 0,
      parse_header_lem header first (get_or header 1 0) ihl p old,
      parse_header_lem after first tos ihl (zeroth ∙ p) new,
      checksum_kept (take n header) (take n after) same positive,
    )
