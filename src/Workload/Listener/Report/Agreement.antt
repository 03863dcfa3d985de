-- ===== src/Workload/Listener/Report/Agreement.antt =====
-- The receiver's loss figures beside those of the analysis.
use time_sensitive_packet.Base.{
  ℕ, suc, ◌+◌, ◌≤◌, ◌≡◌, refl, ap, ◌∙◌, ◌||◌, true, List, [], ◌∷◌, map, length, ltb, if◌then◌else◌,
  arith, nat_eq, int_eq, ◌==◌, contains, dedup, length-dedup_of_Distinct, Bool-cases, length-map,
  inl, inr,
}
use time_sensitive_packet.Base.Int.{ℤ, pos, negsuc, ◌+ℤ◌, ◌-ℤ◌, ◌≤ℤ◌, +ℤ_parts, eq_of_parts}
use time_sensitive_packet.Numpy.Laws.{IsAscending-Distinct}
use time_sensitive_packet.Numpy.{IntArrays, IntArraysLaws, running_max}
use time_sensitive_packet.Metrics.Loss.{init, count_less, loss_counts}
use time_sensitive_packet.Metrics.Loss.Laws.{init-running_max}
use time_sensitive_packet.Workload.Listener.Report.{max_of, reorder_loop, figures}

contains-map_pos : (x : ℕ) (xs : List ℕ) → contains (pos x) (map pos xs) ≡ contains x xs
contains-map_pos x [] = refl
contains-map_pos x (y ∷ ys) = ground (arith, contains-map_pos x ys)

map_pos-dedup : (xs : List ℕ) → dedup (map pos xs) ≡ map pos (dedup xs)
map_pos-dedup [] = refl
map_pos-dedup (x ∷ xs) = elim (Bool-cases (contains x xs)) [
  | inl e ↦ rw (contains-map_pos x xs, e) (map_pos-dedup xs)
  | inr e ↦ rw (contains-map_pos x xs, e) (ap (λ ys. pos x ∷ ys) (map_pos-dedup xs))
]

-- The receiver's loop counts what the comparison with the running maximum counts.
reorder_loop-count_less :
    (m n : ℕ) (xs : List ℕ)
    → reorder_loop (pos m) n xs
      ≡ n + count_less (map pos xs) (init (running_max (pos m) (map pos xs)))
unfolding reorder_loop
reorder_loop-count_less m n [] = omega arith
reorder_loop-count_less m n (x ∷ xs) =
    rw (init-running_max (pos m) (pos x) (map pos xs))
      (ground (arith, reorder_loop-count_less m (suc n) xs, reorder_loop-count_less x n xs))

max_of-le : (m : ℕ) (xs : List ℕ) → m ≤ max_of m xs
max_of-le m [] = omega arith
max_of-le m (x ∷ xs) = ground (arith, max_of-le (if ltb m x then x else m) xs)

contains-le-max_of : (m y : ℕ) (xs : List ℕ) → contains y xs ≡ true → y ≤ max_of m xs
contains-le-max_of m y [] h = cc
contains-le-max_of m y (x ∷ xs) h = ground (
  arith,
  contains-le-max_of (if ltb m x then x else m) y xs,
  max_of-le (if ltb m x then x else m) xs,
)

contains-max_of : (m : ℕ) (xs : List ℕ) → ((max_of m xs == m) || contains (max_of m xs) xs) ≡ true
contains-max_of m [] = ground arith
contains-max_of m (x ∷ xs) = ground (arith, contains-max_of (if ltb m x then x else m) xs)

module _ (np : IntArrays) (laws : IntArraysLaws np) where
  -- A member of an array of naturals is a natural that stands in the list.
  int_max-max_of : (x : ℕ) (xs : List ℕ) → np.int_max (map pos (x ∷ xs)) ≡ pos (max_of x xs)
  int_max-max_of x xs =
      from_bounds (np.int_max (map pos (x ∷ xs))) (laws.contains-int_max (pos x) (map pos xs)) (
        laws.le-int_max (pos (max_of x xs)) (map pos (x ∷ xs))
          (contains-map_pos (max_of x xs) (x ∷ xs) ∙ contains-max_of x xs))
    where
      from_bounds :
          (m : ℤ)
          → contains m (map pos (x ∷ xs)) ≡ true
          → pos (max_of x xs) ≤ℤ m
          → m ≡ pos (max_of x xs)
      from_bounds (negsuc k) c le = absurd (omega arith)
      from_bounds (pos k) c le =
          ground (arith, contains-map_pos k (x ∷ xs), contains-le-max_of x k xs, max_of-le x xs)

  length-unique :
      (x : ℕ) (xs : List ℕ) → length (np.unique (map pos (x ∷ xs))) ≡ length (dedup (x ∷ xs))
  length-unique x xs =
      length-dedup_of_Distinct (np.unique (map pos (x ∷ xs))) (map pos (x ∷ xs))
        (IsAscending-Distinct _ (laws.unique-IsAscending (map pos (x ∷ xs))))
        (λ a. laws.contains-unique a (map pos (x ∷ xs)))
      ∙ ap length (map_pos-dedup (x ∷ xs))
      ∙ length-map pos (dedup (x ∷ xs))

  reorders_agree :
      (x : ℕ) (xs : List ℕ)
      → reorder_loop (negsuc 0) 0 (x ∷ xs)
        ≡ count_less (map pos xs) (init (np.accumulate_max (map pos (x ∷ xs))))
  unfolding reorder_loop
  reorders_agree x xs =
      rw (laws.accumulate_max_lem (pos x) (map pos xs))
        (ground (arith, reorder_loop-count_less x 0 xs))

  -- On any nonempty sequence of arrivals the receiver and the analysis agree on the expected
  -- number of packets, the distinct ones, the lost ones, the duplicates and the reorders.
  pub figures-loss_counts :
      (x : ℕ) (xs : List ℕ)
      → let f = figures x xs in
        let c = loss_counts np (map pos (x ∷ xs)) in
        (pos f.expected ≡ c.expected)
        × (pos f.unique ≡ c.unique)
        × (f.loss ≡ c.lost)
        × (f.dups ≡ c.received -ℤ c.unique)
        × (pos f.reorders ≡ c.reorders)
  unfolding figures loss_counts
  figures-loss_counts x xs =
      let next : pos (max_of x xs) +ℤ pos 1 ≡ pos (suc (max_of x xs)) =
        eq_of_parts _ _ (omega (arith, +ℤ_parts (pos (max_of x xs)) (pos 1))) in
      let expected : pos (suc (max_of x xs)) ≡ np.int_max (map pos (x ∷ xs)) +ℤ pos 1 =
        rw (int_max-max_of x xs, next) in
      (
        expected,
        rw (length-unique x xs),
        rw (← expected, length-unique x xs),
        rw (length-unique x xs, length-map),
        ap pos (reorders_agree x xs),
      )
