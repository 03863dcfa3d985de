-- ===== src/Metrics/Loss/Laws.antt =====
-- What `loss_summary` counts, against a count by hand: the numbers below the expected one that are
-- missing, the rows that repeat a number, and the rows that come after a larger number.
use time_sensitive_packet.Base.{
  ℕ, suc, ◌-◌, ◌≡◌, refl, Bool, true, false, ◌||◌, List, [], ◌∷◌, length, if◌then◌else◌, arith,
  int_eq, beq_ℤ, contains, dedup, length-dedup_of_Distinct, length-dedup-le, ap, ◌∙◌,
}
use time_sensitive_packet.Base.Int.{
  ℤ, pos, negsuc, ◌+ℤ◌, ◌-ℤ◌, ◌≤ℤ◌, ltb_ℤ, +ℤ_parts, -ℤ_parts, eq_of_parts,
}
use mathlib.Core.Path.{subst}
use time_sensitive_packet.Floats.{FloatOps}
use time_sensitive_packet.Numpy.Laws.{IsAscending-Distinct}
use time_sensitive_packet.Numpy.{IntArrays, IntArraysLaws, running_max}
use time_sensitive_packet.Metrics.Loss.{
  init, count_less, LossCounts, LossSummary, loss_counts, float_counts, loss_summary,
}
use time_sensitive_packet.Metrics.Loss.Missing.{missing_below, below, distinct-missing}

-- Some member of `seen` is larger than `x`.
abbrev pub any_greater : ℤ → List ℤ → Bool
any_greater x [] = false
any_greater x (y ∷ ys) = ltb_ℤ x y || any_greater x ys

-- The rows that a larger number stands before, `seen` being the rows above in any order.
abbrev pub late_rows : List ℤ → List ℤ → ℕ
late_rows seen [] = 0
late_rows seen (x ∷ xs) =
    let later = late_rows (x ∷ seen) xs in if any_greater x seen then suc later else later

-- No number is negative, as the talker sends them.
abbrev pub IsNonneg : List ℤ → Type 0
IsNonneg xs = (y : ℤ) → contains y xs ≡ true → pos 0 ≤ℤ y

pub init-running_max :
    (m x : ℤ) (xs : List ℤ)
    → init (running_max m (x ∷ xs)) ≡ m ∷ init (running_max (if ltb_ℤ m x then x else m) xs)
init-running_max m x [] = refl
init-running_max m x (y ∷ xs) = refl

max_step : (z m x : ℤ) → (ltb_ℤ z x || ltb_ℤ z m) ≡ ltb_ℤ z (if ltb_ℤ m x then x else m)
max_step z m x = ground arith

-- Comparing each row with the running maximum finds the rows that a larger number stands before.
pub count_less-running_max :
    (m : ℤ) (seen xs : List ℤ)
    → ((z : ℤ) → any_greater z seen ≡ ltb_ℤ z m)
    → count_less xs (init (running_max m xs)) ≡ late_rows seen xs
count_less-running_max m seen [] h = refl
count_less-running_max m seen (x ∷ xs) h = rw (init-running_max m x xs) (
    ground (
      arith,
      h x,
      count_less-running_max (if ltb_ℤ m x then x else m) (x ∷ seen) xs
          (λ z. ap (λ b. ltb_ℤ z x || b) (h z) ∙ max_step z m x),
    ))

-- `n` is the largest of the numbers.
pub record IsLargest (n : ℕ) (arr : List ℤ) : Type 0 where
  pub received : contains (pos n) arr ≡ true
  pub all_below : (y : ℤ) → contains y arr ≡ true → below (suc n) y ≡ true

abbrev reference_counts : ℕ → List ℤ → LossCounts
reference_counts n arr = record {
  expected = pos n;
  received = pos (length arr);
  unique = pos (length (dedup arr));
  lost = pos (missing_below n arr);
  reorders = pos (late_rows [] arr);
}

abbrev pub reference_summary : (F : FloatOps) → ℕ → List ℤ → LossSummary F
reference_summary F n arr =
    let lost = F.of_int (pos (missing_below n arr)) in
    record {
      expected = F.of_int (pos n);
      received = F.of_int (pos (length arr));
      unique = F.of_int (pos (length (dedup arr)));
      lost = lost;
      loss_pct = F.over (F.times (F.of_int (pos 100)) lost) (F.of_int (pos n));
      duplicates = F.of_int (pos (length arr - length (dedup arr)));
      reorders = F.of_int (pos (late_rows [] arr));
    }

module _ (np : IntArrays) (laws : IntArraysLaws np) where
  -- A member of an array without negative numbers lies below its largest member plus one.
  below-expected :
      (x : ℤ) (xs : List ℤ) (n : ℕ)
      → IsNonneg xs
      → np.int_max xs ≡ pos n
      → (y : ℤ) → contains y xs ≡ true
      → below (suc n) y ≡ true
  below-expected x xs n h top (pos k) m =
      let le : pos k ≤ℤ np.int_max xs = laws.le-int_max (pos k) xs m in ground (arith, rw top at le)
  below-expected x xs n h top (negsuc k) m = absurd (omega (arith, h (negsuc k) m))

  -- The maximum of a sample of rows numbered from 0 is a natural number.
  int_max-pos : (x : ℤ) (xs : List ℤ) → IsNonneg (x ∷ xs) → (n : ℕ) × (np.int_max (x ∷ xs) ≡ pos n)
  int_max-pos x xs h = go (np.int_max (x ∷ xs)) (laws.contains-int_max x xs)
    where
      go : (m : ℤ) → contains m (x ∷ xs) ≡ true → (n : ℕ) × (m ≡ pos n)
      go (pos n) c = (n, refl)
      go (negsuc n) c = absurd (omega (arith, h (negsuc n) c))

  loss_counts_lem :
      (x : ℤ) (xs : List ℤ) (n : ℕ)
      → IsNonneg (x ∷ xs)
      → np.int_max (x ∷ xs) ≡ pos n
      → loss_counts np (x ∷ xs) ≡ reference_counts (suc n) (x ∷ xs)
  unfolding loss_counts
  loss_counts_lem x xs n h top =
      let bound = below-expected x (x ∷ xs) n h top in
      let same : length (np.unique (x ∷ xs)) ≡ length (dedup (x ∷ xs)) =
        length-dedup_of_Distinct (np.unique (x ∷ xs)) (x ∷ xs)
          (IsAscending-Distinct _ (laws.unique-IsAscending (x ∷ xs)))
          (λ a. laws.contains-unique a (x ∷ xs)) in
      let next : pos n +ℤ pos 1 ≡ pos (suc n) =
        eq_of_parts _ _ (omega (arith, +ℤ_parts (pos n) (pos 1))) in
      let lost : pos (suc n) -ℤ pos (length (dedup (x ∷ xs)))
          ≡ pos (missing_below (suc n) (x ∷ xs)) =
        eq_of_parts _ _ (
          omega (
            arith,
            -ℤ_parts (pos (suc n)) (pos (length (dedup (x ∷ xs)))),
            distinct-missing (suc n) (x ∷ xs) bound,
          )) in
      let late : count_less xs (init (running_max x xs)) ≡ late_rows [] (x ∷ xs) =
        count_less-running_max x (x ∷ []) xs (λ z. ground arith) in
      rw (top, same, next, lost, laws.accumulate_max_lem x xs, late)

  succ_nonzero : (n : ℕ) → beq_ℤ (pos (suc n)) (pos 0) ≡ false
  succ_nonzero n = ground arith

  loss_summary-cons :
      (F : FloatOps) (x : ℤ) (xs : List ℤ)
      → loss_summary np F (x ∷ xs) ≡ float_counts np F (loss_counts np (x ∷ xs))
  unfolding loss_summary
  loss_summary-cons F x xs = refl

  -- Of rows numbered from 0 the summary gives as expected the largest number plus one, as lost how
  -- many numbers below that no row has, as unique the distinct numbers, as duplicates the rows
  -- less those, as reorders the rows that a larger number stands before, and as the percentage a
  -- hundred times the lost over the expected.
  pub loss_summary_lem :
      (F : FloatOps) (x : ℤ) (xs : List ℤ)
      → IsNonneg (x ∷ xs)
      → (n : ℕ) × IsLargest n (x ∷ xs)
        × (loss_summary np F (x ∷ xs) ≡ reference_summary F (suc n) (x ∷ xs))
  unfolding float_counts
  loss_summary_lem F x xs h =
      let (n, top) = int_max-pos x xs h in
      let twice : pos (length (x ∷ xs)) -ℤ pos (length (dedup (x ∷ xs)))
          ≡ pos (length (x ∷ xs) - length (dedup (x ∷ xs))) =
        eq_of_parts _ _ (
          omega (
            arith,
            -ℤ_parts (pos (length (x ∷ xs))) (pos (length (dedup (x ∷ xs)))),
            length-dedup-le (x ∷ xs),
          )) in
      (
        n,
        record {
          received = subst (λ m. contains m (x ∷ xs) ≡ true) top (laws.contains-int_max x xs);
          all_below = below-expected x (x ∷ xs) n h top;
        },
        loss_summary-cons F x xs
            ∙ ap (float_counts np F) (loss_counts_lem x xs n h top)
            ∙ rw (twice, succ_nonzero n),
      )
