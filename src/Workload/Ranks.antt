-- ===== src/Workload/Ranks.antt =====
-- The percentiles that the traffic programs print: `d[n // 2]`, `d[int(n * 0.99)]` and `d[-1]` of a
-- sorted list, in workload/listener.py and workload/talker.py.
use time_sensitive_packet.Base.{
  ℕ, zero, suc, ◌-◌, ◌/◌, ◌^◌, ◌≤◌, ◌<◌, ◌≡◌, refl, sym, ap, ◌∙◌, Bool, true, false, not, Option,
  none, some, List, [], ◌∷◌, length, get_elem?, get_elem?-some, count_if, count_if-none, all, leb,
  if◌then◌else◌, Result, ok, err, index_error, ◌>>=◌, Gives, arith,
}
use time_sensitive_packet.Base.Int.{ℤ, pos, negsuc}
use time_sensitive_packet.Floats.{FloatOps, FloatOrder}
use time_sensitive_packet.Numpy.Samples.{IsNumbers, IsSorted}
use time_sensitive_packet.Numpy.Samples.Sorting.{
  insertion_sort, count_if-insertion_sort, insertion_sort-IsSorted,
}
use mathlib.Core.Path.{subst}

all-get_elem? :
    {A : Type 0} (p : A → Bool) (xs : List A) (i : ℕ) (v : A)
    → all p xs ≡ true
    → get_elem? xs i ≡ some v
    → p v ≡ true
all-get_elem? p [] i v h g = cc
all-get_elem? p (x ∷ xs) zero v h g = let e : x ≡ v = cc in ground (arith, ap p e)
all-get_elem? p (x ∷ xs) (suc i) v h g = all-get_elem? p xs i v (ground arith) g

module _ (F : FloatOps) where
  abbrev pub element {ℓ} : {A : Type ℓ} → Option A → Result A
  element none = err index_error
  element (some a) = ok a

  -- `d[i]`, from the end for a negative i.
  abbrev pub at : List F.Float → ℤ → Result F.Float
  at d (pos i) = element (get_elem? d i)
  at d (negsuc k) =
      if leb (suc k) (length d) then element (get_elem? d (length d - suc k)) else err index_error

  -- `int(n * 0.99)`
  abbrev pub index_99 : ℕ → ℤ
  index_99 n = F.truncate (F.times (F.of_int (pos n)) (F.decimal 99 2))

  pub record Ranks : Type 0 where
    pub p50 : F.Float
    pub p99 : F.Float
    pub highest : F.Float

  unfoldable pub ranks_of : List F.Float → Result Ranks
  ranks_of d = do
    p50 ← at d (pos (length d / 2))
    p99 ← at d (index_99 (length d))
    highest ← at d (negsuc 0)
    ok (record { p50 = p50; p99 = p99; highest = highest })

  -- The product of a size and 0.99, rounded, stays below the size.
  pub record IndexLaws : Type 0 where
    pub index_99-below : (n : ℕ) → 0 < n → n ≤ 2 ^ 53 → (k : ℕ) × (index_99 n ≡ pos k) × (k < n)

  module _ (order : FloatOrder F) (index_laws : IndexLaws) where
    -- The value at place i of the sorted samples: at most i are smaller, and more than i are not
    -- larger.
    abbrev pub HasRank : List F.Float → ℕ → F.Float → Type 0
    HasRank samples i v =
        (count_if (λ y. F.lt y v) samples ≤ i) × (i < count_if (λ y. not (F.lt v y)) samples)

    get_elem?-HasRank :
        (d : List F.Float) (i : ℕ) (v : F.Float)
        → IsSorted F d
        → get_elem? d i ≡ some v
        → HasRank d i v
    get_elem?-HasRank [] i v sorted h = cc
    get_elem?-HasRank (y ∷ d) zero v (above, sorted) h =
        let e : y ≡ v = cc in subst (HasRank (y ∷ d) 0) e (first (order.lt_irrefl y) above)
      where
        first : F.lt y y ≡ false → all (λ z. not (F.lt z y)) d ≡ true → HasRank (y ∷ d) 0 y
        first self above =
            (rw self (omega (arith, count_if-none (λ z. F.lt z y) d above)), rw self (omega arith))
    get_elem?-HasRank (y ∷ d) (suc i) v (above, sorted) h =
        let ih = get_elem?-HasRank d i v sorted h in
        let not_above : not (F.lt v y) ≡ true = all-get_elem? (λ z. not (F.lt z y)) d i v above h in
        (smaller ih.0, rw not_above (omega (arith, ih.1)))
      where
        smaller : count_if (λ z. F.lt z v) d ≤ i → count_if (λ z. F.lt z v) (y ∷ d) ≤ suc i
        smaller h = ground arith

    -- What `ranks_of` finds, for the samples before they were sorted.
    pub record AreRanks (samples : List F.Float) (r : Ranks) : Type 0 where
      pub p50_rank : HasRank samples (length samples / 2) r.p50
      pub p99_rank : (k : ℕ) × (index_99 (length samples) ≡ pos k) × HasRank samples k r.p99
      pub highest_rank : HasRank samples (length samples - 1) r.highest

    at-HasRank :
        (d : List F.Float) (i : ℕ)
        → IsSorted F d
        → i < length d
        → Gives (HasRank d i) (at d (pos i))
    at-HasRank d i sorted h =
        let (v, e) = get_elem?-some d i h in (v, ap element e, get_elem?-HasRank d i v sorted e)

    last-HasRank :
        (d : List F.Float)
        → IsSorted F d
        → 0 < length d
        → Gives (HasRank d (length d - 1)) (at d (negsuc 0))
    last-HasRank d sorted h =
        let (v, e) = get_elem?-some d (length d - 1) (omega arith) in
        (v, rw (inside, e) refl, get_elem?-HasRank d (length d - 1) v sorted e)
      where
        inside : leb 1 (length d) ≡ true
        inside = ground arith

    HasRank-sort :
        (samples : List F.Float) (i j : ℕ) (v : F.Float)
        → i ≡ j
        → HasRank (insertion_sort F samples) i v
        → HasRank samples j v
    HasRank-sort samples i j v e (low, high) = (
      omega (arith, count_if-insertion_sort F (λ y. F.lt y v) samples, low, e),
      omega (arith, count_if-insertion_sort F (λ y. not (F.lt v y)) samples, high, e),
    )

    length-insertion_sort : (xs : List F.Float) → length (insertion_sort F xs) ≡ length xs
    length-insertion_sort xs =
        sym (every (insertion_sort F xs)) ∙ count_if-insertion_sort F (λ x. true) xs ∙ every xs
      where
        every : (ys : List F.Float) → count_if (λ x. true) ys ≡ length ys
        every [] = refl
        every (y ∷ ys) = ap suc (every ys)

    -- Where numbers are ordered and int(n * 0.99) is an index below n: the three values of a sorted
    -- copy of samples that are numbers, at least one and at most 2 ** 53 of them. No index is out of
    -- range, and each value has its rank among the samples.
    pub ranks_of-AreRanks :
        (samples : List F.Float)
        → IsNumbers F samples
        → 0 < length samples
        → length samples ≤ 2 ^ 53
        → Gives (AreRanks samples) (ranks_of (insertion_sort F samples))
    unfolding ranks_of
    ranks_of-AreRanks samples numbers some_there few =
        let d = insertion_sort F samples in
        let n : length d ≡ length samples = length-insertion_sort samples in
        let sorted = insertion_sort-IsSorted F order samples numbers in
        let (k, e, below) =
          index_laws.index_99-below (length d) (omega (arith, n)) (omega (arith, n)) in
        let (p50, e50, h50) = at-HasRank d (length d / 2) sorted (omega (arith, n)) in
        let (p99, e99, h99) = at-HasRank d k sorted below in
        let (highest, e_high, h_high) = last-HasRank d sorted (omega (arith, n)) in
        (
          record { p50 = p50; p99 = p99; highest = highest },
          rw (e50, e, e99, e_high) refl,
          record {
            p50_rank =
                HasRank-sort samples (length d / 2) (length samples / 2) p50 (ap (λ m. m / 2) n)
                  h50;
            p99_rank = (k, ap index_99 (sym n) ∙ e, HasRank-sort samples k k p99 refl h99);
            highest_rank =
                HasRank-sort samples (length d - 1) (length samples - 1) highest (ap (λ m. m - 1) n)
                  h_high;
          },
        )
