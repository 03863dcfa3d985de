-- ===== src/Base/Keys.antt =====
-- Equality tests as an interface, and what Python's `in`, `set`, `list.count` and `dict` do with
-- them. A dict is an association list in insertion order.
use time_sensitive_packet.Base.Tests.{◌==◌, ==_iff, if◌then◌else◌}
use time_sensitive_packet.Base.Int.{ℤ, pos_part, neg_part}
use Prim.Native.Nat.{ℕ, suc}
use mathlib.Core.Path.{◌≡◌}
use mathlib.Core.Logic.{◌↔◌}
use mathlib.Core.Bool.{Bool, true, false, ◌&&◌, ◌||◌}
use mathlib.Core.Option.{Option, none, some}
use mathlib.Core.List.{List, [], ◌∷◌}
use native.Mathlib.Omega.{arith}

pub record Eq {ℓ} (A : Type ℓ) : Type ℓ where
  pub beq : A → A → Bool
  pub beq_iff : (a b : A) → (beq a b ≡ true) ↔ (a ≡ b)

abbrev pub beq_ℤ : ℤ → ℤ → Bool
beq_ℤ a b = (pos_part a == pos_part b) && (neg_part a == neg_part b)

pub beq_ℤ_iff : (a b : ℤ) → (beq_ℤ a b ≡ true) ↔ (a ≡ b)
beq_ℤ_iff a b = ground arith

abbrev pub beq_text : List ℕ → List ℕ → Bool
beq_text [] [] = true
beq_text [] (y ∷ ys) = false
beq_text (x ∷ xs) [] = false
beq_text (x ∷ xs) (y ∷ ys) = (x == y) && beq_text xs ys

pub beq_text_iff : (a b : List ℕ) → (beq_text a b ≡ true) ↔ (a ≡ b)
beq_text_iff [] [] = ground arith
beq_text_iff [] (y ∷ ys) = ground arith
beq_text_iff (x ∷ xs) [] = ground arith
beq_text_iff (x ∷ xs) (y ∷ ys) = ground (arith, beq_text_iff xs ys)

instance abbrev pub nat_eq : Eq ℕ
nat_eq = record { beq = ◌==◌; beq_iff = ==_iff }

instance abbrev pub int_eq : Eq ℤ
int_eq = record { beq = beq_ℤ; beq_iff = beq_ℤ_iff }

instance abbrev pub text_eq : Eq (List ℕ)
text_eq = record { beq = beq_text; beq_iff = beq_text_iff }

module _ {ℓ} {A : Type ℓ} ⦃e : Eq A⦄ where
  -- `x in xs`
  abbrev pub contains : A → List A → Bool
  contains a [] = false
  contains a (x ∷ xs) = e.beq a x || contains a xs

  -- `xs.count(x)`
  abbrev pub count : A → List A → ℕ
  count a [] = 0
  count a (x ∷ xs) = if e.beq a x then suc (count a xs) else count a xs

  -- The elements of `set(xs)`.
  abbrev pub dedup : List A → List A
  dedup [] = []
  dedup (x ∷ xs) = if contains x xs then dedup xs else x ∷ dedup xs

  -- The first occurrence of `a` is dropped.
  abbrev pub erase : A → List A → List A
  erase a [] = []
  erase a (x ∷ xs) = if e.beq a x then xs else x ∷ erase a xs

  -- No element stands twice.
  abbrev pub Distinct : List A → Type 0
  Distinct [] = Unit
  Distinct (x ∷ xs) = (contains x xs ≡ false) × Distinct xs

  module _ {κ} {V : Type κ} where
    -- `d.get(k)`
    abbrev pub lookup : A → List (A × V) → Option V
    lookup k [] = none
    lookup k ((j, v) ∷ d) = if e.beq k j then some v else lookup k d

    -- `d[k] = v`
    abbrev pub insert : A → V → List (A × V) → List (A × V)
    insert k v [] = (k, v) ∷ []
    insert k v ((j, w) ∷ d) = if e.beq k j then (j, v) ∷ d else (j, w) ∷ insert k v d
