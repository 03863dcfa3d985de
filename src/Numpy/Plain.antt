-- ===== src/Numpy/Plain.antt =====
-- Integer arrays by plain recursion, as an instance of the interface and of its laws.
use time_sensitive_packet.Base.{
  ℕ, zero, suc, ◌≤◌, ◌<◌, ◌≡◌, refl, ◌||◌, true, List, [], ◌∷◌, map, length, get_or, ltb,
  if◌then◌else◌, arith, int_eq, beq_ℤ, beq_ℤ_iff, contains, count,
}
use time_sensitive_packet.Base.Int.{ℤ, pos, ltb_ℤ, ◌≤ℤ◌}
use time_sensitive_packet.Numpy.{IntArrays, IntArraysLaws, running_max, IsBelowAll, IsAscending}

abbrev largest : ℤ → List ℤ → ℤ
largest m [] = m
largest m (x ∷ xs) = largest (if ltb_ℤ m x then x else m) xs

abbrev plain_max : List ℤ → ℤ
plain_max [] = pos 0
plain_max (x ∷ xs) = largest x xs

abbrev insert_unique : ℤ → List ℤ → List ℤ
insert_unique x [] = x ∷ []
insert_unique x (y ∷ ys) =
    if ltb_ℤ x y then x ∷ y ∷ ys else (if beq_ℤ x y then y ∷ ys else y ∷ insert_unique x ys)

abbrev plain_unique : List ℤ → List ℤ
plain_unique [] = []
plain_unique (x ∷ xs) = insert_unique x (plain_unique xs)

abbrev plain_accumulate : List ℤ → List ℤ
plain_accumulate [] = []
plain_accumulate (x ∷ xs) = running_max x xs

-- The value of a first largest element, and its index.
abbrev best : List ℕ → ℕ × ℕ
best [] = (0, 0)
best (x ∷ xs) = let b = best xs in if ltb x b.0 then (b.0, suc b.1) else (x, 0)

abbrev pub plain_arrays : IntArrays
plain_arrays = record {
  int_max = plain_max;
  unique = plain_unique;
  unique_counts = λ xs. map (λ k. (k, count k xs)) (plain_unique xs);
  accumulate_max = plain_accumulate;
  argmax = λ xs. (best xs).1;
}

contains-largest :
    (m : ℤ) (xs : List ℤ) → (beq_ℤ (largest m xs) m || contains (largest m xs) xs) ≡ true
contains-largest m [] = ground (arith, beq_ℤ_iff m m)
contains-largest m (x ∷ xs) = ground (arith, contains-largest (if ltb_ℤ m x then x else m) xs)

le-largest_start : (m : ℤ) (xs : List ℤ) → m ≤ℤ largest m xs
le-largest_start m [] = omega arith
le-largest_start m (x ∷ xs) = ground (arith, le-largest_start (if ltb_ℤ m x then x else m) xs)

le-largest : (y m : ℤ) (xs : List ℤ) → contains y xs ≡ true → y ≤ℤ largest m xs
le-largest y m [] h = cc
le-largest y m (x ∷ xs) h = ground (
  arith,
  le-largest y (if ltb_ℤ m x then x else m) xs,
  le-largest_start (if ltb_ℤ m x then x else m) xs,
  beq_ℤ_iff y x,
)

le-plain_max : (x : ℤ) (xs : List ℤ) → contains x xs ≡ true → x ≤ℤ plain_max xs
le-plain_max x [] h = cc
le-plain_max x (y ∷ ys) h = ground (arith, le-largest x y ys, le-largest_start y ys, beq_ℤ_iff x y)

IsBelowAll-insert_unique :
    (z x : ℤ) (xs : List ℤ) → ltb_ℤ z x ≡ true → IsBelowAll z xs → IsBelowAll z (insert_unique x xs)
IsBelowAll-insert_unique z x [] h a = (h, tt)
IsBelowAll-insert_unique z x (y ∷ ys) h a = ground (arith, IsBelowAll-insert_unique z x ys h a.1)

IsBelowAll-trans : (z x : ℤ) (xs : List ℤ) → ltb_ℤ z x ≡ true → IsBelowAll x xs → IsBelowAll z xs
IsBelowAll-trans z x [] h a = tt
IsBelowAll-trans z x (y ∷ ys) h a = ground (arith, IsBelowAll-trans z x ys h a.1)

insert_unique-IsAscending :
    (x : ℤ) (xs : List ℤ) → IsAscending xs → IsAscending (insert_unique x xs)
insert_unique-IsAscending x [] h = (tt, tt)
insert_unique-IsAscending x (y ∷ ys) h = ground (
  arith,
  insert_unique-IsAscending x ys h.1,
  IsBelowAll-insert_unique y x ys,
  IsBelowAll-trans x y ys,
  beq_ℤ_iff x y,
)

plain_unique-IsAscending : (xs : List ℤ) → IsAscending (plain_unique xs)
plain_unique-IsAscending [] = tt
plain_unique-IsAscending (x ∷ xs) =
    insert_unique-IsAscending x (plain_unique xs) (plain_unique-IsAscending xs)

contains-insert_unique :
    (a x : ℤ) (xs : List ℤ) → contains a (insert_unique x xs) ≡ (beq_ℤ a x || contains a xs)
contains-insert_unique a x [] = refl
contains-insert_unique a x (y ∷ ys) =
    ground (arith, contains-insert_unique a x ys, beq_ℤ_iff x y, beq_ℤ_iff a x, beq_ℤ_iff a y)

contains-plain_unique : (a : ℤ) (xs : List ℤ) → contains a (plain_unique xs) ≡ contains a xs
contains-plain_unique a [] = refl
contains-plain_unique a (x ∷ xs) =
    ground (arith, contains-insert_unique a x (plain_unique xs), contains-plain_unique a xs)

best-lt : (x : ℕ) (xs : List ℕ) → (best (x ∷ xs)).1 < length (x ∷ xs)
best-lt x [] = ground arith
best-lt x (y ∷ ys) = ground (arith, best-lt y ys)

best-value : (xs : List ℕ) → get_or xs (best xs).1 0 ≡ (best xs).0
best-value [] = refl
best-value (x ∷ xs) = ground (arith, best-value xs)

best-max : (xs : List ℕ) (i : ℕ) → get_or xs i 0 ≤ (best xs).0
best-max [] i = omega arith
best-max (x ∷ xs) zero = ground arith
best-max (x ∷ xs) (suc i) = ground (arith, best-max xs i)

best-first : (xs : List ℕ) (i : ℕ) → i < (best xs).1 → get_or xs i 0 < (best xs).0
best-first [] i h = absurd (omega arith)
best-first (x ∷ xs) zero h = ground arith
best-first (x ∷ xs) (suc i) h = ground (arith, best-first xs i)

pub plain_arrays_laws : IntArraysLaws plain_arrays
plain_arrays_laws = record {
  contains-int_max = λ x xs. contains-largest x xs;
  le-int_max = le-plain_max;
  unique-IsAscending = plain_unique-IsAscending;
  contains-unique = contains-plain_unique;
  unique_counts_lem = λ xs. refl;
  accumulate_max_lem = λ x xs. refl;
  argmax-lt = best-lt;
  argmax-max = λ xs i h. rw (best-value xs) (best-max xs i);
  argmax-first = λ xs i h. rw (best-value xs) (best-first xs i h);
}
