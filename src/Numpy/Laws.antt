-- ===== src/Numpy/Laws.antt =====
-- Consequences of numpy's documented behaviour.
use time_sensitive_packet.Base.{
  ◌≡◌, refl, ap, sym, Bool-cases, inl, inr, none, some, map, lookup, count, if◌then◌else◌, false,
  List, [], ◌∷◌, arith, int_eq, beq_ℤ_iff, contains, Distinct,
}
use time_sensitive_packet.Base.Int.{ℤ}
use time_sensitive_packet.Numpy.{IsBelowAll, IsAscending}

not-contains_of_IsBelowAll : (x : ℤ) (xs : List ℤ) → IsBelowAll x xs → contains x xs ≡ false
not-contains_of_IsBelowAll x [] h = refl
not-contains_of_IsBelowAll x (y ∷ ys) h =
    ground (arith, not-contains_of_IsBelowAll x ys h.1, beq_ℤ_iff x y)

pub IsAscending-Distinct : (xs : List ℤ) → IsAscending xs → Distinct xs
IsAscending-Distinct [] h = tt
IsAscending-Distinct (x ∷ xs) h = (not-contains_of_IsBelowAll x xs h.0, IsAscending-Distinct xs h.1)

-- A histogram has an entry for each of its keys.
pub lookup-counts :
    (k : ℤ) (ks xs : List ℤ)
    → lookup k (map (λ j. (j, count j xs)) ks) ≡ (if contains k ks then some (count k xs) else none)
lookup-counts k [] xs = refl
lookup-counts k (j ∷ ks) xs = elim (Bool-cases (int_eq.beq k j)) [
  | inl same ↦ rw same (ap (λ i. some (count i xs)) (sym ((int_eq.beq_iff k j).0 same)))
  | inr other ↦ rw other (lookup-counts k ks xs)
]
