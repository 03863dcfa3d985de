-- ===== src/Metrics/Dscp/Laws.antt =====
-- The sums of the histograms of `dscp_distribution`.
use time_sensitive_packet.Base.{
  ℕ, ◌-◌, ◌*◌, ◌%◌, ◌==◌, ◌&&◌, Bool, false, Bool-cases, inl, inr, sym, Option, none, count_if,
  contains, lookup, if◌then◌else◌, ◌+◌, ◌≤◌, ◌≡◌, refl, ap, ◌∙◌, some, List, [], ◌∷◌, map, length,
  arith, sum, int_eq, count, sum_counts, sum_counts-length, length-map,
}
use time_sensitive_packet.Base.Int.{ℤ, pos, negsuc, leb_ℤ, ltb_ℤ}
use time_sensitive_packet.Numpy.{IntArrays, IntArraysLaws}
use time_sensitive_packet.Numpy.Laws.{IsAscending-Distinct, lookup-counts}
use time_sensitive_packet.Metrics.Dscp.{
  valid, shift_2, low_2, Distribution, counts, distribution_of, dscp_distribution,
}

length-valid-le : (arr : List ℤ) → length (valid arr) ≤ length arr
length-valid-le [] = omega arith
length-valid-le (x ∷ xs) = ground (arith, length-valid-le xs)

counts-sum : (ks xs : List ℤ) → sum (counts (map (λ k. (k, count k xs)) ks)) ≡ sum_counts ks xs
counts-sum [] xs = refl
counts-sum (k ∷ ks) xs = omega (arith, counts-sum ks xs)

-- The bytes of a DSCP, and those of an ECN field.
abbrev pub has_dscp : ℕ → ℤ → Bool
has_dscp k x = leb_ℤ (pos (4 * k)) x && ltb_ℤ x (pos (4 * k + 4))

abbrev pub has_ecn : ℕ → ℤ → Bool
has_ecn k (pos n) = n % 4 == k
has_ecn k (negsuc n) = false

abbrev pub or_zero : Option ℕ → ℕ
or_zero none = 0
or_zero (some n) = n

missing_lem : (arr : List ℤ) → length arr - length (valid arr) ≡ count_if (λ x. ltb_ℤ x (pos 0)) arr
missing_lem [] = refl
missing_lem (pos n ∷ arr) = ground (arith, missing_lem arr)
missing_lem (negsuc n ∷ arr) = ground (arith, missing_lem arr, length-valid-le arr)

count-dscp :
    (k : ℕ) (arr : List ℤ) → count (pos k) (map shift_2 (valid arr)) ≡ count_if (has_dscp k) arr
count-dscp k [] = refl
count-dscp k (pos n ∷ arr) = ground (arith, count-dscp k arr)
count-dscp k (negsuc n ∷ arr) = ground (arith, count-dscp k arr)

count-ecn :
    (k : ℕ) (arr : List ℤ) → count (pos k) (map low_2 (valid arr)) ≡ count_if (has_ecn k) arr
count-ecn k [] = refl
count-ecn k (pos n ∷ arr) = ground (arith, count-ecn k arr)
count-ecn k (negsuc n ∷ arr) = ground (arith, count-ecn k arr)

count-tos : (k : ℕ) (arr : List ℤ) → count (pos k) (valid arr) ≡ count (pos k) arr
count-tos k [] = refl
count-tos k (pos n ∷ arr) = ground (arith, count-tos k arr)
count-tos k (negsuc n ∷ arr) = ground (arith, count-tos k arr)

count-absent : (k : ℤ) (xs : List ℤ) → contains k xs ≡ false → count k xs ≡ 0
count-absent k [] h = refl
count-absent k (x ∷ xs) h = ground (arith, count-absent k xs)

module _ (np : IntArrays) (laws : IntArraysLaws np) where
  -- The counts of a histogram add up to the number of values.
  histogram_total : (xs : List ℤ) → sum (counts (np.unique_counts xs)) ≡ length xs
  histogram_total xs =
      ap (λ d. sum (counts d)) (laws.unique_counts_lem xs)
      ∙ counts-sum (np.unique xs) xs
      ∙ sum_counts-length (np.unique xs) xs (IsAscending-Distinct _ (laws.unique-IsAscending xs))
          (λ a h. laws.contains-unique a xs ∙ h)

  -- How often a histogram has a value.
  abbrev pub entry : ℤ → List (ℤ × ℕ) → ℕ
  entry k d = or_zero (lookup k d)

  entry-unique_counts : (k : ℤ) (xs : List ℤ) → entry k (np.unique_counts xs) ≡ count k xs
  entry-unique_counts k xs =
      ap (entry k) (laws.unique_counts_lem xs)
      ∙ ap or_zero (lookup-counts k (np.unique xs) xs)
      ∙ ap (λ b. or_zero (if b then some (count k xs) else none)) (laws.contains-unique k xs)
      ∙ elim (Bool-cases (contains k xs)) [
        | inl there ↦ rw there refl
        | inr absent ↦ rw absent (sym (count-absent k xs absent))
      ]

  -- The rows have no TOS exactly where the receiver wrote a negative number. The other ones are
  -- counted by DSCP, by ECN and by TOS: 4 k to 4 k + 3 are the bytes of the DSCP k, and those whose
  -- remainder by 4 is k have the ECN k. Each histogram, with the rows that have no TOS, sums to the
  -- number of rows.
  pub dscp_distribution-total :
      (arr : List ℤ)
      → (d : Distribution) × (dscp_distribution np (some arr) ≡ some d)
        × (d.missing ≡ count_if (λ x. ltb_ℤ x (pos 0)) arr)
        × ((k : ℕ) → entry (pos k) d.dscp ≡ count_if (has_dscp k) arr)
        × ((k : ℕ) → entry (pos k) d.ecn ≡ count_if (has_ecn k) arr)
        × ((k : ℕ) → entry (pos k) d.tos ≡ count (pos k) arr)
        × (sum (counts d.dscp) + d.missing ≡ length arr)
        × (sum (counts d.ecn) + d.missing ≡ length arr)
        × (sum (counts d.tos) + d.missing ≡ length arr)
  unfolding dscp_distribution
  dscp_distribution-total arr =
      let v = valid arr in
      let fits = length-valid-le arr in
      (
        distribution_of np arr,
        refl,
        missing_lem arr,
        (λ k. entry-unique_counts (pos k) (map shift_2 v) ∙ count-dscp k arr),
        (λ k. entry-unique_counts (pos k) (map low_2 v) ∙ count-ecn k arr),
        (λ k. entry-unique_counts (pos k) v ∙ count-tos k arr),
        omega (arith, histogram_total (map shift_2 v), length-map shift_2 v, fits),
        omega (arith, histogram_total (map low_2 v), length-map low_2 v, fits),
        omega (arith, histogram_total v, fits),
      )
