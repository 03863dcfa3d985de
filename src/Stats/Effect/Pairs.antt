-- ===== src/Stats/Effect/Pairs.antt =====
-- Cliff's delta by its definition: over all pairs of the two samples.
use native.Mathlib.Nat.{suc-mul}
use time_sensitive_packet.Base.{
  ℕ, ◌+◌, ◌*◌, ◌≤◌, ◌<◌, ◌≡◌, refl, sym, ap, ◌∙◌, Bool, true, false, List, [], ◌∷◌, map, length,
  sum, sum_ints, count_if, count_if-split, count_if-rest, count_if-disjoint, arith, Bool-cases, inl,
  inr,
}
use time_sensitive_packet.Base.Int.{pos, ◌+ℤ◌, ◌-ℤ◌, eq_of_parts, +ℤ_parts, -ℤ_parts}
use time_sensitive_packet.Floats.{FloatOps, FloatOrder}
use time_sensitive_packet.Numpy.Samples.{FloatArrays, FloatArraysLaws, IsNumbers, IsSorted}
use time_sensitive_packet.Stats.Effect.{cliffs_delta, dominance, delta_sorted}

module _ (F : FloatOps) where
  -- The pairs of a member of `a` and a smaller member of `b`.
  abbrev pub pairs_above : List F.Float → List F.Float → ℕ
  pairs_above [] b = 0
  pairs_above (x ∷ xs) b = count_if (λ y. F.lt y x) b + pairs_above xs b

  -- The pairs of a member of `a` and a larger member of `b`.
  abbrev pairs_below : List F.Float → List F.Float → ℕ
  pairs_below [] b = 0
  pairs_below (x ∷ xs) b = count_if (λ y. F.lt x y) b + pairs_below xs b

  pairs_above-nil : (b : List F.Float) → pairs_above b [] ≡ 0
  pairs_above-nil [] = refl
  pairs_above-nil (y ∷ ys) = omega (arith, pairs_above-nil ys)

  pairs_above-cons :
      (x : F.Float) (b xs : List F.Float)
      → pairs_above b (x ∷ xs) ≡ count_if (λ y. F.lt x y) b + pairs_above b xs
  pairs_above-cons x [] xs = refl
  pairs_above-cons x (y ∷ ys) xs = ground (arith, pairs_above-cons x ys xs)

  -- Counted from the other sample.
  pairs_below-swap : (a b : List F.Float) → pairs_below a b ≡ pairs_above b a
  pairs_below-swap [] b = sym (pairs_above-nil b)
  pairs_below-swap (x ∷ xs) b = omega (arith, pairs_above-cons x b xs, pairs_below-swap xs b)

  module _ (order : FloatOrder F) where
    lt_asym : (x y : F.Float) → F.lt y x ≡ true → F.lt x y ≡ false
    lt_asym x y h = elim (Bool-cases (F.lt x y)) [
      | inl both ↦ ground (arith, order.lt_trans x y x both h, order.lt_irrefl x)
      | inr one ↦ one
    ]

    pairs-le : (a b : List F.Float) → pairs_above a b + pairs_below a b ≤ length a * length b
    pairs-le [] b = omega arith
    pairs-le (x ∷ xs) b = omega (
      arith,
      suc-mul (length xs) (length b),
      count_if-disjoint (λ y. F.lt y x) (λ y. F.lt x y) b (lt_asym x),
      pairs-le xs b,
    )

  pos-add : (m n : ℕ) → pos m +ℤ pos n ≡ pos (m + n)
  pos-add m n = eq_of_parts _ _ (omega (arith, +ℤ_parts (pos m) (pos n)))

  IsNumbers-cons :
      (x : F.Float) (xs : List F.Float)
      → IsNumbers F (x ∷ xs)
      → (F.is_nan x ≡ false) × IsNumbers F xs
  IsNumbers-cons x xs h = elim (Bool-cases (F.is_nan x)) [
    | inl nan ↦ absurd (ground arith)
    | inr good ↦ (good, ground arith)
  ]

  -- `c` is `b` sorted.
  record IsSortedOf (c b : List F.Float) : Type 0 where
    same : (p : F.Float → Bool) → count_if p c ≡ count_if p b
    sorted : IsSorted F c
    numbers : IsNumbers F c

  module _ (np : FloatArrays F) (laws : FloatArraysLaws F np) where
    sort-IsSortedOf : (b : List F.Float) → IsNumbers F b → IsSortedOf (np.sort b) b
    sort-IsSortedOf b h = record {
      same = λ p. laws.count_if-sort p b;
      sorted = laws.sort-IsSorted b h;
      numbers = laws.count_if-sort F.is_nan b ∙ h;
    }

    searchsorted_left-count :
        (c b : List F.Float) (x : F.Float)
        → IsSortedOf c b
        → F.is_nan x ≡ false
        → np.searchsorted_left c x ≡ count_if (λ y. F.lt y x) b
    searchsorted_left-count c b x s h =
        let l = laws.searchsorted_left_lem c x s.sorted s.numbers h in
        sym (count_if-split (λ y. F.lt y x) _ c l.0 l.1 l.2) ∙ s.same (λ y. F.lt y x)

    searchsorted_right-count :
        (c b : List F.Float) (x : F.Float)
        → IsSortedOf c b
        → F.is_nan x ≡ false
        → pos (length c) -ℤ pos (np.searchsorted_right c x) ≡ pos (count_if (λ y. F.lt x y) b)
    searchsorted_right-count c b x s h =
        let l = laws.searchsorted_right_lem c x s.sorted s.numbers h in
        eq_of_parts _ _ (
          omega (
            arith,
            -ℤ_parts (pos (length c)) (pos (np.searchsorted_right c x)),
            count_if-rest (λ y. F.lt x y) (np.searchsorted_right c x) c l.0 l.1 l.2,
            s.same (λ y. F.lt x y),
          ))

    searchsorted-pairs :
        (a b c : List F.Float)
        → IsSortedOf c b
        → IsNumbers F a
        → (sum (map (np.searchsorted_left c) a) ≡ pairs_above a b)
          × (sum_ints (map (λ x. pos (length c) -ℤ pos (np.searchsorted_right c x)) a)
              ≡ pos (pairs_below a b))
    searchsorted-pairs [] b c s h = (refl, refl)
    searchsorted-pairs (x ∷ xs) b c s h =
        let (good, rest) = IsNumbers-cons x xs h in
        let ih = searchsorted-pairs xs b c s rest in
        (
          omega (arith, ih.0, searchsorted_left-count c b x s good),
          rw (searchsorted_right-count c b x s good, ih.1)
              (pos-add (count_if (λ y. F.lt x y) b) (pairs_below xs b)),
        )

    count_if-all : (xs : List F.Float) → count_if (λ y. true) xs ≡ length xs
    count_if-all [] = refl
    count_if-all (x ∷ xs) = omega (arith, count_if-all xs)

    -- The quotient, once the two sums are known to be the counts of pairs.
    delta_sorted-pairs :
        (x : F.Float) (xs b c : List F.Float)
        → IsSortedOf c b
        → (0 < length b)
        → (sum (map (np.searchsorted_left c) (x ∷ xs)) ≡ pairs_above (x ∷ xs) b)
          × (sum_ints (map (λ x. pos (length c) -ℤ pos (np.searchsorted_right c x)) (x ∷ xs))
              ≡ pos (pairs_below (x ∷ xs) b))
        → delta_sorted F np (x ∷ xs) c
          ≡ F.over
              (F.of_int (pos (pairs_above (x ∷ xs) b) -ℤ pos (pairs_above b (x ∷ xs))))
              (F.of_int (pos (length (x ∷ xs) * length b)))
    unfolding dominance
    delta_sorted-pairs x xs b [] s some p =
        absurd (omega (arith, s.same (λ y. true), count_if-all b))
    delta_sorted-pairs x xs b (y ∷ ys) s some p =
        let long : length (y ∷ ys) ≡ length b =
          sym (count_if-all (y ∷ ys)) ∙ s.same (λ y. true) ∙ count_if-all b in
        let above = pairs_above (x ∷ xs) b in
        ap (λ d. F.over (F.of_int d) (F.of_int (pos (length (x ∷ xs) * length (y ∷ ys)))))
          (ap
              (λ m.
                pos m
                -ℤ sum_ints (
                    map (λ v. pos (length (y ∷ ys)) -ℤ pos (np.searchsorted_right (y ∷ ys) v))
                      (x ∷ xs)))
              p.0
            ∙ ap (λ m. pos above -ℤ m) p.1
            ∙ ap (λ m. pos above -ℤ pos m) (pairs_below-swap (x ∷ xs) b))
        ∙ ap
            (λ n.
              F.over (F.of_int (pos above -ℤ pos (pairs_above b (x ∷ xs))))
                (F.of_int (pos (length (x ∷ xs) * n))))
            long

    -- On samples without nan, neither of them empty, Cliff's delta is the pairs in which the first
    -- sample is larger less those in which the second one is, over all pairs. Exchanging the
    -- samples so exchanges the two counts. The difference is no larger than the number of pairs.
    pub cliffs_delta-pairs :
        FloatOrder F
        → (x y : F.Float) (xs ys : List F.Float)
        → let a = x ∷ xs in
          let b = y ∷ ys in
          IsNumbers F a
          → IsNumbers F b
          → (cliffs_delta F np a b
              ≡ F.over
                  (F.of_int (pos (pairs_above a b) -ℤ pos (pairs_above b a)))
                  (F.of_int (pos (length a * length b))))
            × (pairs_above a b + pairs_above b a ≤ length a * length b)
    unfolding cliffs_delta dominance
    cliffs_delta-pairs order x y xs ys na nb =
        let b = y ∷ ys in
        let s = sort-IsSortedOf b nb in
        let p = searchsorted-pairs (x ∷ xs) b (np.sort b) s na in
        let swap = pairs_below-swap (x ∷ xs) b in
        let le = pairs-le order (x ∷ xs) b in
        (delta_sorted-pairs x xs b (np.sort b) s (omega arith) p, omega (arith, le, swap))
