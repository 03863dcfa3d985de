-- ===== src/Numpy/Samples/Sorting.antt =====
-- Sorting and searching from an order on the floats, as an instance of the interface and its laws.
use time_sensitive_packet.Base.{
  ok, ℕ, ◌≤◌, ◌≡◌, refl, ◌∙◌, Bool, true, false, not, List, [], ◌∷◌, length, take, drop, count_if,
  all, arith, Bool-cases, inl, inr, if◌then◌else◌,
}
use time_sensitive_packet.Floats.{FloatOps, FloatOrder}
use time_sensitive_packet.Numpy.Samples.{FloatArrays, FloatArraysLaws, IsNumbers, IsSorted}

module _ (F : FloatOps) where
  abbrev insert : F.Float → List F.Float → List F.Float
  insert x [] = x ∷ []
  insert x (y ∷ ys) = if F.lt y x then y ∷ insert x ys else x ∷ y ∷ ys

  abbrev pub insertion_sort : List F.Float → List F.Float
  insertion_sort [] = []
  insertion_sort (x ∷ xs) = insert x (insertion_sort xs)

  abbrev pub left_of : List F.Float → F.Float → ℕ
  left_of b v = count_if (λ y. F.lt y v) b

  abbrev pub right_of : List F.Float → F.Float → ℕ
  right_of b v = count_if (λ y. not (F.lt v y)) b

  pub count_if-insertion_sort :
      (p : F.Float → Bool) (xs : List F.Float) → count_if p (insertion_sort xs) ≡ count_if p xs
  count_if-insertion_sort p [] = refl
  count_if-insertion_sort p (x ∷ xs) =
      ground (arith, count_if-insert x (insertion_sort xs), count_if-insertion_sort p xs)
    where
      count_if-insert :
          (x : F.Float) (ys : List F.Float) → count_if p (insert x ys) ≡ count_if p (x ∷ ys)
      count_if-insert x [] = refl
      count_if-insert x (y ∷ ys) = ground (arith, count_if-insert x ys)

  module _ (order : FloatOrder F) where
    number_head : (x : F.Float) (xs : List F.Float) → IsNumbers F (x ∷ xs) → F.is_nan x ≡ false
    number_head x xs h = elim (Bool-cases (F.is_nan x)) [
      | inl nan ↦ absurd (ground arith)
      | inr good ↦ good
    ]

    number_tail : (x : F.Float) (xs : List F.Float) → IsNumbers F (x ∷ xs) → IsNumbers F xs
    number_tail x xs h = ground (arith, number_head x xs h)

    -- `lt z x` would be `lt z y` or `lt y x`.
    not_below :
        (x y : F.Float) (zs : List F.Float)
        → F.is_nan y ≡ false
        → F.lt y x ≡ false
        → all (λ z. not (F.lt z y)) zs ≡ true
        → all (λ z. not (F.lt z x)) zs ≡ true
    not_below x y [] n h a = refl
    not_below x y (z ∷ zs) n h a = ground (arith, not_below x y zs n h, order.lt_split z y x n)

    above_all :
        (v y : F.Float) (zs : List F.Float)
        → IsNumbers F zs
        → F.lt v y ≡ true
        → all (λ z. not (F.lt z y)) zs ≡ true
        → all (λ z. F.lt v z) zs ≡ true
    above_all v y [] n h a = refl
    above_all v y (z ∷ zs) n h a = ground (
      arith,
      above_all v y zs (number_tail z zs n) h,
      order.lt_split v z y (number_head z zs n) h,
    )

    count_if-none_below :
        (v : F.Float) (zs : List F.Float)
        → all (λ z. not (F.lt z v)) zs ≡ true
        → count_if (λ z. F.lt z v) zs ≡ 0
    count_if-none_below v [] a = refl
    count_if-none_below v (z ∷ zs) a = ground (arith, count_if-none_below v zs)

    count_if-all_above :
        (v : F.Float) (zs : List F.Float)
        → all (λ z. F.lt v z) zs ≡ true
        → count_if (λ z. not (F.lt v z)) zs ≡ 0
    count_if-all_above v [] a = refl
    count_if-all_above v (z ∷ zs) a = ground (arith, count_if-all_above v zs)

    all-insert :
        (p : F.Float → Bool) (x : F.Float) (ys : List F.Float)
        → p x ≡ true
        → all p ys ≡ true
        → all p (insert x ys) ≡ true
    all-insert p x [] h a = ground arith
    all-insert p x (y ∷ ys) h a = ground (arith, all-insert p x ys h)

    insert-IsSorted :
        (x : F.Float) (ys : List F.Float)
        → F.is_nan x ≡ false
        → IsNumbers F ys
        → IsSorted F ys
        → IsSorted F (insert x ys)
    insert-IsSorted x [] nx n s = (refl, tt)
    insert-IsSorted x (y ∷ ys) nx n s = elim (Bool-cases (F.lt y x)) [
      | inl less ↦ rw less (
        all-insert (λ z. not (F.lt z y)) x ys (asym less) s.0,
        insert-IsSorted x ys nx (number_tail y ys n) s.1,
      )
      | inr geq ↦ rw geq (rw geq (not_below x y ys (number_head y ys n) geq s.0), (s.0, s.1))
    ]
      where
        asym : F.lt y x ≡ true → not (F.lt x y) ≡ true
        asym h = elim (Bool-cases (F.lt x y)) [
          | inl both ↦ absurd (ground (arith, order.lt_trans x y x both h, order.lt_irrefl x))
          | inr one ↦ rw one refl
        ]

    pub insertion_sort-IsSorted :
        (xs : List F.Float) → IsNumbers F xs → IsSorted F (insertion_sort xs)
    insertion_sort-IsSorted [] n = tt
    insertion_sort-IsSorted (x ∷ xs) n =
        insert-IsSorted x (insertion_sort xs) (number_head x xs n)
          (count_if-insertion_sort F.is_nan xs ∙ number_tail x xs n)
          (insertion_sort-IsSorted xs (number_tail x xs n))

    pub left_of_lem :
        (b : List F.Float) (v : F.Float)
        → IsSorted F b
        → IsNumbers F b
        → F.is_nan v ≡ false
        → (left_of b v ≤ length b)
          × (all (λ y. F.lt y v) (take (left_of b v) b) ≡ true)
          × (all (λ y. not (F.lt y v)) (drop (left_of b v) b) ≡ true)
    left_of_lem [] v s n nv = (omega arith, refl, refl)
    left_of_lem (y ∷ ys) v s n nv = elim (Bool-cases (F.lt y v)) [
      | inl less ↦
          let ih = left_of_lem ys v s.1 (number_tail y ys n) nv in
          rw less (omega (arith, ih.0), rw less ih.1, ih.2)
      | inr geq ↦
          let none_less = not_below v y ys (number_head y ys n) geq s.0 in
          rw (geq, count_if-none_below v ys none_less) (omega arith, refl, rw geq none_less)
    ]

    pub right_of_lem :
        (b : List F.Float) (v : F.Float)
        → IsSorted F b
        → IsNumbers F b
        → F.is_nan v ≡ false
        → (right_of b v ≤ length b)
          × (all (λ y. not (F.lt v y)) (take (right_of b v) b) ≡ true)
          × (all (λ y. F.lt v y) (drop (right_of b v) b) ≡ true)
    right_of_lem [] v s n nv = (omega arith, refl, refl)
    right_of_lem (y ∷ ys) v s n nv = elim (Bool-cases (F.lt v y)) [
      | inl less ↦
          let rest = above_all v y ys (number_tail y ys n) less s.0 in
          rw (less, count_if-all_above v ys rest) (omega arith, refl, rw less rest)
      | inr geq ↦
          let ih = right_of_lem ys v s.1 (number_tail y ys n) nv in
          rw geq (omega (arith, ih.0), rw geq ih.1, ih.2)
    ]

-- The functions that no theorem assumes anything of are constant.
abbrev pub sorting_arrays : (F : FloatOps) → FloatArrays F
sorting_arrays F = record {
  sort = insertion_sort F;
  searchsorted_left = left_of F;
  searchsorted_right = right_of F;
  percentile = λ method q xs. ok F.nan;
  mean = λ xs. F.nan;
  largest = λ xs. F.nan;
  smallest = λ xs. F.nan;
  std = λ xs. F.nan;
  sqrt = λ n. F.nan;
  mannwhitneyu = λ a b. (F.nan, F.nan);
  t_ppf = λ q n. F.nan;
}

pub sorting_arrays_laws : (F : FloatOps) → FloatOrder F → FloatArraysLaws F (sorting_arrays F)
sorting_arrays_laws F order = record {
  count_if-sort = count_if-insertion_sort F;
  sort-IsSorted = insertion_sort-IsSorted F order;
  searchsorted_left_lem = left_of_lem F order;
  searchsorted_right_lem = right_of_lem F order;
}
