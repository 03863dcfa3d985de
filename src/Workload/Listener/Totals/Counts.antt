-- ===== src/Workload/Listener/Totals/Counts.antt =====
-- The TOS counts of the receiver beside the histogram of the analysis.
use time_sensitive_packet.Base.{
  ℕ, suc, ◌+◌, ◌≡◌, refl, ap, ◌∙◌, sym, Bool, true, false, Option, none, some, List, [], ◌∷◌,
  if◌then◌else◌, int_eq, contains, count, lookup, insert, lookup-insert, Bool-cases, inl, inr,
  arith,
}
use time_sensitive_packet.Base.Int.{ℤ, pos, leb_ℤ}
use time_sensitive_packet.Numpy.{IntArrays, IntArraysLaws}
use time_sensitive_packet.Numpy.Laws.{lookup-counts}
use time_sensitive_packet.Metrics.Dscp.{valid, distribution_of}
use time_sensitive_packet.Workload.Listener.Totals.{or_zero, count_tos}

-- A value that is there, with how often.
abbrev pub counted : ℤ → List ℤ → Option ℕ
counted k xs = if contains k xs then some (count k xs) else none

-- With what the dict had before.
abbrev added : ℤ → List ℤ → Option ℕ → Option ℕ
added k xs before = if contains k xs then some (or_zero before + count k xs) else before

count-absent : (k : ℤ) (xs : List ℤ) → contains k xs ≡ false → count k xs ≡ 0
count-absent k [] h = refl
count-absent k (x ∷ xs) h = ground (arith, count-absent k xs)

added-same : (k : ℤ) (xs : List ℤ) (b : ℕ) → added k xs (some (b + 1)) ≡ some (b + suc (count k xs))
added-same k xs b = elim (Bool-cases (contains k xs)) [
  | inl e ↦ rw e (ap some (omega arith))
  | inr e ↦ rw e (ap some (none_there b (count k xs) (count-absent k xs e)))
]
  where
    none_there : (b n : ℕ) → n ≡ 0 → b + 1 ≡ b + suc n
    none_there b n h = omega arith

added-step :
    (k x : ℤ) (xs : List ℤ) (dist : List (ℤ × ℕ))
    → added k xs (if int_eq.beq k x then some (or_zero (lookup x dist) + 1) else lookup k dist)
      ≡ added k (x ∷ xs) (lookup k dist)
added-step k x xs dist = elim (Bool-cases (int_eq.beq k x)) [
  | inl same ↦
      let e : k ≡ x = (int_eq.beq_iff k x).0 same in
      rw same (
        added-same k xs (or_zero (lookup x dist))
        ∙ ap (λ j. some (or_zero (lookup j dist) + suc (count k xs))) (sym e))
  | inr other ↦ rw other refl
]

lookup-count_tos :
    (k : ℤ) (xs : List ℤ) (dist : List (ℤ × ℕ))
    → lookup k (count_tos xs dist) ≡ added k xs (lookup k dist)
unfolding count_tos
lookup-count_tos k [] dist = refl
lookup-count_tos k (x ∷ xs) dist =
    lookup-count_tos k xs (insert x (or_zero (lookup x dist) + 1) dist)
    ∙ ap (added k xs) (lookup-insert x k (or_zero (lookup x dist) + 1) dist)
    ∙ added-step k x xs dist

contains-valid :
    (k : ℤ) (xs : List ℤ) → leb_ℤ (pos 0) k ≡ true → contains k (valid xs) ≡ contains k xs
contains-valid k [] h = refl
contains-valid k (x ∷ xs) h = ground (arith, contains-valid k xs h, int_eq.beq_iff k x)

count-valid : (k : ℤ) (xs : List ℤ) → leb_ℤ (pos 0) k ≡ true → count k (valid xs) ≡ count k xs
count-valid k [] h = refl
count-valid k (x ∷ xs) h = ground (arith, count-valid k xs h, int_eq.beq_iff k x)

counted-valid : (k : ℤ) (xs : List ℤ) → leb_ℤ (pos 0) k ≡ true → counted k (valid xs) ≡ counted k xs
counted-valid k xs h = rw (contains-valid k xs h, count-valid k xs h) refl

-- If numpy behaves as documented, then for a TOS byte the receiver's count and the count in the
-- histogram of the analysis are the same: the number of rows that have it, and no entry if none has.
pub count_tos-distribution :
    (np : IntArrays) (laws : IntArraysLaws np) (values : List ℤ) (tos : ℤ)
    → leb_ℤ (pos 0) tos ≡ true
    → (lookup tos (count_tos values []) ≡ lookup tos (distribution_of np values).tos)
      × (lookup tos (count_tos values []) ≡ counted tos values)
unfolding distribution_of
count_tos-distribution np laws values tos h =
    let received : lookup tos (count_tos values []) ≡ counted tos values =
      lookup-count_tos tos values [] ∙ zero_added (contains tos values) (count tos values) in
    (
      received
          ∙ sym (
              ap (lookup tos) (laws.unique_counts_lem (valid values))
              ∙ lookup-counts tos (np.unique (valid values)) (valid values)
              ∙ ap (λ b. if b then some (count tos (valid values)) else none)
                  (laws.contains-unique tos (valid values))
              ∙ counted-valid tos values h),
      received,
    )
  where
    zero_added :
        (b : Bool) (n : ℕ) → (if b then some (0 + n) else none) ≡ (if b then some n else none)
    zero_added true n = ap some (omega arith)
    zero_added false n = refl
