-- ===== src/Metrics/Dscp/Dominant.antt =====
-- `dominant_dscp` and the most frequent values.
use time_sensitive_packet.Base.{
  ℕ, zero, suc, ltb, ◌==◌, ==_iff, List-cases, sym, ◌⊎◌, ◌≤◌, ◌<◌, ◌≡◌, ◌≢◌, refl, ap, ◌∙◌, Bool,
  true, false, none, some, List, [], ◌∷◌, map, length, get_or, arith, int_eq, beq_ℤ_iff, contains,
  count, Bool-cases, inl, inr,
}
use mathlib.Core.Path.{subst}
use time_sensitive_packet.Base.Int.{ℤ, pos, ltb_ℤ}
use time_sensitive_packet.Numpy.{IntArrays, IntArraysLaws, IsBelowAll, IsAscending}
use time_sensitive_packet.Metrics.Dscp.{valid, shift_2, keys, counts, dominant, distribution_of}

-- The histogram over the given keys.
abbrev tally : List ℤ → List ℤ → List (ℤ × ℕ)
tally xs ks = map (λ k. (k, count k xs)) ks

keys-tally : (xs ks : List ℤ) → keys (tally xs ks) ≡ ks
keys-tally xs [] = refl
keys-tally xs (k ∷ ks) = ap (λ l. k ∷ l) (keys-tally xs ks)

length-counts-tally : (xs ks : List ℤ) → length (counts (tally xs ks)) ≡ length ks
length-counts-tally xs [] = refl
length-counts-tally xs (k ∷ ks) = ap suc (length-counts-tally xs ks)

counts-tally :
    (xs ks : List ℤ) (j : ℕ)
    → j < length ks
    → get_or (counts (tally xs ks)) j 0 ≡ count (get_or ks j (pos 0)) xs
counts-tally xs [] j h = absurd (omega arith)
counts-tally xs (k ∷ ks) zero h = refl
counts-tally xs (k ∷ ks) (suc j) h = counts-tally xs ks j (omega arith)

-- Where a member stands.
index_of :
    (k : ℤ) (ks : List ℤ)
    → contains k ks ≡ true
    → (j : ℕ) × (j < length ks) × (get_or ks j (pos 0) ≡ k)
index_of k [] h = absurd (cc)
index_of k (x ∷ ks) h = elim (Bool-cases (contains k ks)) [
  | inl m ↦ let (j, p, q) = index_of k ks m in (suc j, omega arith, q)
  | inr m ↦ (0, omega arith, ground (arith, beq_ℤ_iff k x))
]

IsBelowAll-get :
    (x : ℤ) (xs : List ℤ) (i : ℕ)
    → IsBelowAll x xs
    → i < length xs
    → ltb_ℤ x (get_or xs i (pos 0)) ≡ true
IsBelowAll-get x [] i a h = absurd (omega arith)
IsBelowAll-get x (y ∷ ys) zero a h = a.0
IsBelowAll-get x (y ∷ ys) (suc i) a h = IsBelowAll-get x ys i a.1 (omega arith)

IsAscending-get :
    (xs : List ℤ) (j i : ℕ)
    → IsAscending xs
    → j < i
    → i < length xs
    → ltb_ℤ (get_or xs j (pos 0)) (get_or xs i (pos 0)) ≡ true
IsAscending-get [] j i a h l = absurd (omega arith)
IsAscending-get (x ∷ xs) j zero a h l = absurd (omega arith)
IsAscending-get (x ∷ xs) zero (suc i) a h l = IsBelowAll-get x xs i a.0 (omega arith)
IsAscending-get (x ∷ xs) (suc j) (suc i) a h l =
    IsAscending-get xs j i a.1 (omega arith) (omega arith)

count-absent : (k : ℤ) (xs : List ℤ) → contains k xs ≡ false → count k xs ≡ 0
count-absent k [] h = refl
count-absent k (x ∷ xs) h = ground (arith, count-absent k xs)

-- `d` is a mode of `xs`, and the smallest one.
pub record IsMode (d : ℤ) (xs : List ℤ) : Type 0 where
  pub most : (k : ℤ) → count k xs ≤ count d xs
  pub smallest : (k : ℤ) → ltb_ℤ k d ≡ true → contains k xs ≡ true → count k xs < count d xs

module _ (np : IntArrays) (laws : IntArraysLaws np) where
  module _ (xs : List ℤ) (u : ℤ) (us : List ℤ) (e : np.unique xs ≡ u ∷ us) where
    abbrev top : ℕ
    top = np.argmax (counts (tally xs (u ∷ us)))

    top-lt : top < length (u ∷ us)
    top-lt =
        omega (arith, laws.argmax-lt (count u xs) (counts (tally xs us)), length-counts-tally xs us)

    ascending : IsAscending (u ∷ us)
    ascending = subst IsAscending e (laws.unique-IsAscending xs)

    member : (k : ℤ) → contains k xs ≡ true → contains k (u ∷ us) ≡ true
    member k h = subst (λ l. contains k l ≡ true) e (laws.contains-unique k xs ∙ h)

    -- The largest count is that of the key at `top`.
    top_count : get_or (counts (tally xs (u ∷ us))) top 0 ≡ count (get_or (u ∷ us) top (pos 0)) xs
    top_count = counts-tally xs (u ∷ us) top top-lt

    in_range : (j : ℕ) → j < length (u ∷ us) → j < length (counts (tally xs (u ∷ us)))
    in_range j h = omega (arith, length-counts-tally xs (u ∷ us))

    mode_most : (k : ℤ) → contains k xs ≡ true → count k xs ≤ count (get_or (u ∷ us) top (pos 0)) xs
    mode_most k m =
        let (j, p, q) = index_of k (u ∷ us) (member k m) in
        subst (λ l. count l xs ≤ count (get_or (u ∷ us) top (pos 0)) xs) q
          (omega (
            arith,
            top_count,
            counts-tally xs (u ∷ us) j p,
            laws.argmax-max (counts (tally xs (u ∷ us))) j (in_range j p),
          ))

    before_top :
        (j : ℕ)
        → j < length (u ∷ us)
        → ltb_ℤ (get_or (u ∷ us) j (pos 0)) (get_or (u ∷ us) top (pos 0)) ≡ true
        → j < top
    before_top j p less = elim (Bool-cases (ltb j top)) [
      | inl h ↦ ground arith
      | inr h ↦ elim (Bool-cases (j == top)) [
        | inl same ↦ absurd (
            irreflexive (get_or (u ∷ us) top (pos 0)) (
              subst (λ i. ltb_ℤ (get_or (u ∷ us) i (pos 0)) (get_or (u ∷ us) top (pos 0)) ≡ true)
                ((==_iff j top).0 same) less))
        | inr other ↦ absurd (
            asymmetric (get_or (u ∷ us) j (pos 0)) (get_or (u ∷ us) top (pos 0)) less
              (IsAscending-get (u ∷ us) top j ascending (ground arith) p))
      ]
    ]
      where
        irreflexive : (a : ℤ) → ¬ (ltb_ℤ a a ≡ true)
        irreflexive a h = ground arith

        asymmetric : (a b : ℤ) → ltb_ℤ a b ≡ true → ¬ (ltb_ℤ b a ≡ true)
        asymmetric a b h k = ground arith

    mode_smallest :
        (k : ℤ)
        → ltb_ℤ k (get_or (u ∷ us) top (pos 0)) ≡ true
        → contains k xs ≡ true
        → count k xs < count (get_or (u ∷ us) top (pos 0)) xs
    mode_smallest k less m =
        let (j, p, q) = index_of k (u ∷ us) (member k m) in
        let first =
          before_top j p (subst (λ l. ltb_ℤ l (get_or (u ∷ us) top (pos 0)) ≡ true) (sym q) less) in
        subst (λ l. count l xs < count (get_or (u ∷ us) top (pos 0)) xs) q
          (omega (
            arith,
            top_count,
            counts-tally xs (u ∷ us) j p,
            laws.argmax-first (counts (tally xs (u ∷ us))) j first,
          ))

    mode : IsMode (get_or (u ∷ us) top (pos 0)) xs
    mode = record {
      most = λ k. elim (Bool-cases (contains k xs)) [
        | inl m ↦ mode_most k m
        | inr m ↦ omega (arith, count-absent k xs m)
      ];
      smallest = mode_smallest;
    }

  dominant-IsMode :
      (x : ℤ) (xs : List ℤ) → IsMode (dominant np (np.unique_counts (x ∷ xs))) (x ∷ xs)
  dominant-IsMode x xs = elim (List-cases (np.unique (x ∷ xs))) [
    | inl none_left ↦ absurd (
        impossible
          (subst (λ l. contains x l ≡ true) none_left (laws.contains-unique x (x ∷ xs) ∙ here)))
    | inr (u, us, e) ↦
        subst (λ d. IsMode (dominant np d) (x ∷ xs)) (sym (laws.unique_counts_lem (x ∷ xs)))
          (subst (λ ks. IsMode (dominant np (tally (x ∷ xs) ks)) (x ∷ xs)) (sym e)
            (subst (λ l. IsMode (get_or l (top (x ∷ xs) u us e) (pos 0)) (x ∷ xs))
              (sym (keys-tally (x ∷ xs) (u ∷ us))) (mode (x ∷ xs) u us e)))
  ]
    where
      impossible : ¬ (◌≡◌ {A = Bool} false true)
      impossible h = cc

      here : contains x (x ∷ xs) ≡ true
      here = ground (arith, beq_ℤ_iff x x)

  -- With at least one row that has a TOS, `dominant_dscp` is a DSCP that no other one exceeds in
  -- rows, and the smallest of those; with none it is missing.
  pub dominant_dscp-IsMode :
      (arr : List ℤ)
      → ((valid arr ≡ []) × ((distribution_of np arr).dominant_dscp ≡ none))
        ⊎ ((valid arr ≢ [])
            × (d : ℤ) × ((distribution_of np arr).dominant_dscp ≡ some d)
            × IsMode d (map shift_2 (valid arr)))
  unfolding distribution_of
  dominant_dscp-IsMode arr = elim (List-cases (valid arr)) [
    | inl e ↦ inl (e, rw (e, distribution_of))
    | inr (x, xs, e) ↦ inr (
      there (valid arr) x xs e,
      dominant np (np.unique_counts (map shift_2 (x ∷ xs))),
      rw (e, distribution_of) (ap (λ v. some (dominant np (np.unique_counts (map shift_2 v)))) e),
      rw e (dominant-IsMode (shift_2 x) (map shift_2 xs)),
    )
  ]
    where
      there : (v : List ℤ) (x : ℤ) (xs : List ℤ) → v ≡ x ∷ xs → v ≢ []
      there v x xs e h = cc
