-- ===== src/Plots/Styles.antt =====
-- `condition_styles` of plots.py: which style a condition has.
pub mod Colors
pub mod Ranks
use time_sensitive_packet.Base.{
  ℕ, zero, suc, ◌+◌, ◌%◌, ◌≤◌, ◌<◌, ◌≡◌, ◌≢◌, refl, sym, ap, ◌∙◌, Bool, true, false, not, Option,
  none, some, List, [], ◌∷◌, map, length, get_or, if◌then◌else◌, Text, text_eq, contains, lookup,
  insert, lookup-insert, beq_refl, Distinct, all, Bool-cases, Option-cases, inl, inr, arith,
}
use time_sensitive_packet.Plots.{
  Style, known_styles, fallback_colors, fallback_style, styles_from, condition_styles,
}
use mathlib.Core.Path.{subst}
use time_sensitive_packet.Plots.Styles.Ranks.{
  is_unknown, style_for, styles_from-lookup, styles_from-other, unknown_before, unknown_before-lt,
  unknown_before-ne, unknown_in,
}
use time_sensitive_packet.Plots.Styles.Colors.{
  all-contains, apart, colors_of, contains-texts_of, get_or-contains, get_or-injective, texts_of,
  texts_of-injective,
}

-- The colours of the two kinds.
color_of-known : (c : Text) (n : ℕ) (s : Style) → lookup c known_styles ≡ some s → style_for c n ≡ s
color_of-known c n s e = rw (style_for, e) refl

color_of-unknown :
    (c : Text) (n : ℕ) → lookup c known_styles ≡ none → style_for c n ≡ fallback_style n
color_of-unknown c n e = rw (style_for, e) refl

fallback_colors-Distinct : Distinct fallback_colors
fallback_colors-Distinct = (refl, (refl, (refl, (refl, (refl, tt)))))

known_styles-Distinct : Distinct (colors_of known_styles)
known_styles-Distinct = (refl, (refl, (refl, (refl, (refl, tt)))))

unknown : (c : Text) → lookup c known_styles ≡ none → is_unknown c ≡ true
unknown c p = rw (is_unknown, p) refl

unknown_color :
    (c : Text) (n : ℕ)
    → n < 5
    → lookup c known_styles ≡ none
    → (style_for c n).color ≡ get_or fallback_colors n []
unknown_color c n below p =
    ap (λ x. x.color) (color_of-unknown c n p)
    ∙ ap (λ i. get_or fallback_colors i []) (in_range n below)
  where
    in_range : (n : ℕ) → n < 5 → n % 5 ≡ n
    in_range n h = omega arith

-- A known condition and one that is not do not share a colour.
mixed :
    (c : Text) (n : ℕ) (e : Text) (m : ℕ) (t : Style)
    → n < 5
    → lookup c known_styles ≡ none
    → lookup e known_styles ≡ some t
    → (style_for c n).color ≡ (style_for e m).color
    → ⊥
mixed c n e m t below p q same =
    let color : get_or fallback_colors n [] ≡ t.color =
      sym (unknown_color c n below p) ∙ same ∙ ap (λ x. x.color) (color_of-known e m t q) in
    let there : contains t.color fallback_colors ≡ true =
      ap (λ x. contains x fallback_colors) (sym color) ∙ get_or-contains fallback_colors n below in
    let away : not (contains t.color fallback_colors) ≡ true =
      all-contains (λ x. not (contains x fallback_colors)) t.color (colors_of known_styles) apart
        (contains-texts_of (λ s. s.color) e known_styles t q) in
    ground (arith, there, away)

style_for-ne :
    (c e : Text) (n m : ℕ)
    → text_eq.beq c e ≡ false
    → (is_unknown c ≡ true → n < 5)
    → (is_unknown e ≡ true → m < 5)
    → (is_unknown c ≡ true → is_unknown e ≡ true → n ≢ m)
    → (style_for c n).color ≢ (style_for e m).color
style_for-ne c e n m ne below under differ same = elim (Option-cases (lookup c known_styles)) [
  | inl p ↦ elim (Option-cases (lookup e known_styles)) [
    | inl q ↦
        let colors : get_or fallback_colors n [] ≡ get_or fallback_colors m [] =
          sym (unknown_color c n (below (unknown c p)) p)
          ∙ same
          ∙ unknown_color e m (under (unknown e q)) q in
        differ (unknown c p) (unknown e q) (
          get_or-injective fallback_colors n m fallback_colors-Distinct (below (unknown c p))
            (under (unknown e q)) colors)
    | inr (t, q) ↦ mixed c n e m t (below (unknown c p)) p q same
  ]
  | inr (s, p) ↦ elim (Option-cases (lookup e known_styles)) [
    | inl q ↦ mixed e m c n s (under (unknown e q)) q p (sym same)
    | inr (t, q) ↦
        let here : s.color ≡ t.color =
          ap (λ x. x.color) (sym (color_of-known c n s p))
          ∙ same
          ∙ ap (λ x. x.color) (color_of-known e m t q) in
        let one : c ≡ e =
          texts_of-injective (λ s. s.color) c e known_styles s t known_styles-Distinct p q here in
        ground (arith, text_eq.beq_iff c e)
  ]
]

-- In a list of distinct conditions of which at most five are not the testbed's own, each condition
-- has a style, no two of them have the same colour, and one of the testbed's has its own style.
pub condition_styles-IsDistinct :
    (conditions : List Text) (c e : Text)
    → Distinct conditions
    → unknown_in conditions ≤ 5
    → contains c conditions ≡ true
    → contains e conditions ≡ true
    → text_eq.beq c e ≡ false
    → (s : Style) × (t : Style) × (lookup c (condition_styles conditions) ≡ some s)
      × (lookup e (condition_styles conditions) ≡ some t)
      × (s.color ≢ t.color)
      × ((known : Style) → lookup c known_styles ≡ some known → s ≡ known)
unfolding condition_styles
condition_styles-IsDistinct conditions c e distinct few h g ne =
    let n = unknown_before c conditions in
    let m = unknown_before e conditions in
    (
      style_for c n,
      style_for e m,
      styles_from-lookup c conditions 0 [] distinct h
          ∙ ap (λ i. some (style_for c i)) (zero_plus n),
      styles_from-lookup e conditions 0 [] distinct g
          ∙ ap (λ i. some (style_for e i)) (zero_plus m),
      style_for-ne c e n m ne (λ u. bound (unknown_before-lt c conditions h u) few)
          (λ u. bound (unknown_before-lt e conditions g u) few)
          (unknown_before-ne c e conditions ne h g),
      λ known p. color_of-known c n known p,
    )
  where
    zero_plus : (i : ℕ) → 0 + i ≡ i
    zero_plus i = omega arith

    bound : {a b : ℕ} → a < b → b ≤ 5 → a < 5
    bound h g = omega arith
