-- ===== src/Base/Members.antt =====
-- Members of lists without repetition, and of dicts after an insertion.
use time_sensitive_packet.Base.Tests.{if◌then◌else◌}
use time_sensitive_packet.Base.Lists.{length}
use time_sensitive_packet.Base.Keys.{Eq, contains, dedup, erase, Distinct, lookup, insert}
use Prim.Native.Nat.{suc, ◌≤◌}
use mathlib.Core.Path.{◌≡◌, refl}
use mathlib.Core.Bool.{true, false}
use mathlib.Core.Option.{some}
use mathlib.Core.List.{List, [], ◌∷◌}
use native.Mathlib.Omega.{arith}

module _ {ℓ} {A : Type ℓ} ⦃e : Eq A⦄ where
  pub beq_refl : (a : A) → e.beq a a ≡ true
  beq_refl a = (e.beq_iff a a).1 refl

  pub contains-erase_ne :
      (a b : A) (xs : List A) → e.beq a b ≡ false → contains a (erase b xs) ≡ contains a xs
  contains-erase_ne a b [] ne = refl
  contains-erase_ne a b (x ∷ xs) ne =
      ground (arith, contains-erase_ne a b xs ne, e.beq_iff b x, e.beq_iff a x, e.beq_iff a b)

  pub length-erase :
      (a : A) (xs : List A) → contains a xs ≡ true → length xs ≡ suc (length (erase a xs))
  length-erase a [] h = cc
  length-erase a (x ∷ xs) h = ground (arith, length-erase a xs)

  -- Every member of `xs` is one of `ys`.
  abbrev pub Subset : List A → List A → Type ℓ
  Subset xs ys = (a : A) → contains a xs ≡ true → contains a ys ≡ true

  pub length-le_of_Subset : (xs ys : List A) → Distinct xs → Subset xs ys → length xs ≤ length ys
  length-le_of_Subset [] ys d s = omega arith
  length-le_of_Subset (x ∷ xs) ys d s =
      let here : contains x ys ≡ true = s x (rw beq_refl refl) in
      let rest : length xs ≤ length (erase x ys) =
        length-le_of_Subset xs (erase x ys) d.1
          (λ a h. ground (arith, s a, contains-erase_ne a x ys, e.beq_iff a x, h, d.0)) in
      omega (arith, length-erase x ys here)

  pub contains-dedup : (a : A) (xs : List A) → contains a (dedup xs) ≡ contains a xs
  contains-dedup a [] = refl
  contains-dedup a (x ∷ xs) = ground (arith, contains-dedup a xs, e.beq_iff a x)

  pub dedup-Distinct : (xs : List A) → Distinct (dedup xs)
  dedup-Distinct [] = tt
  dedup-Distinct (x ∷ xs) = ground (arith, dedup-Distinct xs, contains-dedup x xs)

  -- A list without repetition that has the members of `xs` is as long as `set(xs)`.
  pub length-dedup_of_Distinct :
      (ys xs : List A)
      → Distinct ys
      → ((a : A) → contains a ys ≡ contains a xs)
      → length ys ≡ length (dedup xs)
  length-dedup_of_Distinct ys xs d same = omega (
    arith,
    length-le_of_Subset ys (dedup xs) d (λ a h. rw (contains-dedup, ← same a) h),
    length-le_of_Subset (dedup xs) ys (dedup-Distinct xs)
        (λ a h. rw (same a, ← contains-dedup a xs) h),
  )

  pub length-dedup-le : (xs : List A) → length (dedup xs) ≤ length xs
  length-dedup-le [] = omega arith
  length-dedup-le (x ∷ xs) = ground (arith, length-dedup-le xs)

  module _ {κ} {V : Type κ} where
    pub lookup-insert :
        (k j : A) (v : V) (d : List (A × V))
        → lookup j (insert k v d) ≡ (if e.beq j k then some v else lookup j d)
    lookup-insert k j v [] = refl
    lookup-insert k j v ((i, w) ∷ d) =
        ground (arith, e.beq_iff k i, e.beq_iff j i, e.beq_iff j k, lookup-insert k j v d)
