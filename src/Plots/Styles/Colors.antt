-- ===== src/Plots/Styles/Colors.antt =====
-- The colours of the styles.
use time_sensitive_packet.Base.{
  ℕ, zero, suc, ◌<◌, ◌≡◌, refl, sym, ap, ◌∙◌, Bool, true, false, not, some, List, [], ◌∷◌, length,
  get_or, Text, text_eq, contains, lookup, beq_refl, Distinct, all, Bool-cases, inl, inr, arith,
}
use time_sensitive_packet.Plots.{Style, known_styles, fallback_colors}
use mathlib.Core.Path.{subst}

module _ {V : Type 0} (f : V → Text) where
  -- The texts of a table.
  abbrev pub texts_of : List (Text × V) → List Text
  texts_of [] = []
  texts_of ((k, v) ∷ d) = f v ∷ texts_of d

  pub contains-texts_of :
      (c : Text) (d : List (Text × V)) (v : V)
      → lookup c d ≡ some v
      → contains (f v) (texts_of d) ≡ true
  contains-texts_of c [] v h = cc
  contains-texts_of c ((k, w) ∷ d) v h = elim (Bool-cases (text_eq.beq c k)) [
    | inl same ↦
        let e : w ≡ v = some-injective (rw same at h) in
        ground (arith, ap f e, text_eq.beq_iff (f v) (f w))
    | inr other ↦ ground (arith, contains-texts_of c d v (rw other at h))
  ]
    where
      some-injective : {a b : V} → some a ≡ some b → a ≡ b
      some-injective h = cc

  -- A table whose texts are distinct has one name for each.
  pub texts_of-injective :
      (c e : Text) (d : List (Text × V)) (v w : V)
      → Distinct (texts_of d)
      → lookup c d ≡ some v
      → lookup e d ≡ some w
      → f v ≡ f w
      → c ≡ e
  texts_of-injective c e [] v w distinct h g same = cc
  texts_of-injective c e ((k, u) ∷ d) v w (fresh, distinct) h g same =
      elim (Bool-cases (text_eq.beq c k)) [
        | inl here ↦ elim (Bool-cases (text_eq.beq e k)) [
          | inl there ↦ ground (arith, text_eq.beq_iff c k, text_eq.beq_iff e k)
          | inr other ↦
              absurd
                (clash u v w fresh (rw here at h) same (contains-texts_of e d w (rw other at g)))
        ]
        | inr away ↦ elim (Bool-cases (text_eq.beq e k)) [
          | inl there ↦ absurd (
              clash u w v fresh (rw there at g) (sym same) (contains-texts_of c d v (rw away at h)))
          | inr other ↦ texts_of-injective c e d v w distinct (rw away at h) (rw other at g) same
        ]
      ]
    where
      clash :
          (u v w : V)
          → contains (f u) (texts_of d) ≡ false
          → some u ≡ some v
          → f v ≡ f w
          → contains (f w) (texts_of d) ≡ true
          → ⊥
      clash u v w fresh h same there =
          let e : u ≡ v = cc in
          let lost : true ≡ false =
            sym there ∙ ap (λ t. contains t (texts_of d)) (sym (ap f e ∙ same)) ∙ fresh in
          cc

-- Two styles of different colours.
abbrev pub colors_of : List (Text × Style) → List Text
colors_of = texts_of (λ s. s.color)

pub apart : all (λ c. not (contains c fallback_colors)) (colors_of known_styles) ≡ true
apart = refl

pub get_or-contains : (xs : List Text) (i : ℕ) → i < length xs → contains (get_or xs i []) xs ≡ true
get_or-contains [] i h = absurd (omega arith)
get_or-contains (x ∷ xs) zero h = rw (beq_refl x) refl
get_or-contains (x ∷ xs) (suc i) h = ground (arith, get_or-contains xs i (omega arith))

pub get_or-injective :
    (xs : List Text) (i j : ℕ)
    → Distinct xs
    → i < length xs
    → j < length xs
    → get_or xs i [] ≡ get_or xs j []
    → i ≡ j
get_or-injective [] i j distinct h g same = absurd (omega arith)
get_or-injective (x ∷ xs) zero zero distinct h g same = refl
get_or-injective (x ∷ xs) zero (suc j) (fresh, distinct) h g same =
    let lost : true ≡ false =
      sym (get_or-contains xs j (omega arith)) ∙ ap (λ t. contains t xs) (sym same) ∙ fresh in
    cc
get_or-injective (x ∷ xs) (suc i) zero (fresh, distinct) h g same =
    let lost : true ≡ false =
      sym (get_or-contains xs i (omega arith)) ∙ ap (λ t. contains t xs) same ∙ fresh in
    cc
get_or-injective (x ∷ xs) (suc i) (suc j) (fresh, distinct) h g same =
    ap suc (get_or-injective xs i j distinct (omega arith) (omega arith) same)

pub all-contains :
    (p : Text → Bool) (t : Text) (xs : List Text)
    → all p xs ≡ true
    → contains t xs ≡ true
    → p t ≡ true
all-contains p t [] h g = cc
all-contains p t (x ∷ xs) h g = elim (Bool-cases (text_eq.beq t x)) [
  | inl same ↦ subst (λ y. p y ≡ true) (sym ((text_eq.beq_iff t x).0 same)) (ground arith)
  | inr other ↦ all-contains p t xs (ground arith) (ground arith)
]
