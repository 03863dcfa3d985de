-- ===== src/Plots/Styles/Ranks.antt =====
-- The entry of a condition in `condition_styles`, and the unknown conditions before it.
use time_sensitive_packet.Base.{
  ℕ, suc, ◌+◌, ◌<◌, ◌≡◌, ◌≢◌, refl, sym, ap, ◌∙◌, Bool, true, false, none, some, List, [], ◌∷◌,
  if◌then◌else◌, Text, text_eq, contains, lookup, insert, lookup-insert, beq_refl, Distinct,
  Bool-cases, Option-cases, inl, inr, arith,
}
use time_sensitive_packet.Plots.{Style, known_styles, fallback_style, styles_from}
use mathlib.Core.Path.{subst}

abbrev pub is_unknown : Text → Bool
is_unknown c = elim (lookup c known_styles) [ none ↦ true | some s ↦ false ]

-- How many conditions have no style of their own.
abbrev pub unknown_in : List Text → ℕ
unknown_in [] = 0
unknown_in (d ∷ ds) = if is_unknown d then suc (unknown_in ds) else unknown_in ds

-- How many of those stand before `c`.
abbrev pub unknown_before : Text → List Text → ℕ
unknown_before c [] = 0
unknown_before c (d ∷ ds) =
    if text_eq.beq c d
    then 0
    else (if is_unknown d then suc (unknown_before c ds) else unknown_before c ds)

-- The style of a condition after n unknown ones.
abbrev pub style_for : Text → ℕ → Style
style_for c n = elim (lookup c known_styles) [ some known ↦ known | none ↦ fallback_style n ]

pub styles_from-other :
    (c : Text) (cs : List Text) (extra : ℕ) (styles : List (Text × Style))
    → contains c cs ≡ false
    → lookup c (styles_from cs extra styles) ≡ lookup c styles
unfolding styles_from
styles_from-other c [] extra styles h = refl
styles_from-other c (d ∷ cs) extra styles h = elim (Option-cases (lookup d known_styles)) [
  | inl e ↦
      rw (styles_from, e)
        (styles_from-other c cs (suc extra) (insert d (fallback_style extra) styles) (later h)
          ∙ kept (fallback_style extra) h)
  | inr (k, e) ↦
      rw (styles_from, e) (styles_from-other c cs extra (insert d k styles) (later h) ∙ kept k h)
]
  where
    later : contains c (d ∷ cs) ≡ false → contains c cs ≡ false
    later h = ground arith

    kept :
        (s : Style) → contains c (d ∷ cs) ≡ false → lookup c (insert d s styles) ≡ lookup c styles
    kept s h = ground (arith, lookup-insert d c s styles)

pub styles_from-lookup :
    (c : Text) (cs : List Text) (extra : ℕ) (styles : List (Text × Style))
    → Distinct cs
    → contains c cs ≡ true
    → lookup c (styles_from cs extra styles) ≡ some (style_for c (extra + unknown_before c cs))
unfolding styles_from
styles_from-lookup c [] extra styles distinct h = cc
styles_from-lookup c (d ∷ cs) extra styles (fresh, distinct) h =
    elim (Bool-cases (text_eq.beq c d)) [
      | inl same ↦
          let e : c ≡ d = (text_eq.beq_iff c d).0 same in
          subst
            (λ x.
              lookup x (styles_from (d ∷ cs) extra styles)
              ≡ some (style_for x (extra + unknown_before x (d ∷ cs))))
            (sym e) (here fresh)
      | inr other ↦ there other (ground arith) (λ n s. styles_from-lookup c cs n s distinct)
    ]
  where
    stored : (s : Style) → lookup d (insert d s styles) ≡ some s
    stored s = rw (lookup-insert, beq_refl d) refl

    here :
        contains d cs ≡ false
        → lookup d (styles_from (d ∷ cs) extra styles)
          ≡ some (style_for d (extra + unknown_before d (d ∷ cs)))
    here fresh = elim (Option-cases (lookup d known_styles)) [
      | inl e ↦
          rw (styles_from, style_for, e, beq_refl d)
            (styles_from-other d cs (suc extra) (insert d (fallback_style extra) styles) fresh
              ∙ stored (fallback_style extra)
              ∙ ap (λ n. some (fallback_style n)) (plus_zero extra))
      | inr (k, e) ↦
          rw (styles_from, style_for, e)
            (styles_from-other d cs extra (insert d k styles) fresh ∙ stored k)
    ]
      where
        plus_zero : (n : ℕ) → n ≡ n + 0
        plus_zero n = omega arith

    there :
        text_eq.beq c d ≡ false
        → contains c cs ≡ true
        → ((n : ℕ) (s : List (Text × Style))
            → contains c cs ≡ true
            → lookup c (styles_from cs n s) ≡ some (style_for c (n + unknown_before c cs)))
        → lookup c (styles_from (d ∷ cs) extra styles)
          ≡ some (style_for c (extra + unknown_before c (d ∷ cs)))
    there other later ih = elim (Option-cases (lookup d known_styles)) [
      | inl e ↦
          rw (styles_from, other, is_unknown, e)
            (ih (suc extra) (insert d (fallback_style extra) styles) later
              ∙ ap (λ n. some (style_for c n)) (suc_plus extra (unknown_before c cs)))
      | inr (k, e) ↦ rw (styles_from, other, is_unknown, e) (ih extra (insert d k styles) later)
    ]
      where
        suc_plus : (n m : ℕ) → suc n + m ≡ n + suc m
        suc_plus n m = omega arith

pub unknown_before-lt :
    (c : Text) (cs : List Text)
    → contains c cs ≡ true
    → is_unknown c ≡ true
    → unknown_before c cs < unknown_in cs
unknown_before-lt c [] h u = cc
unknown_before-lt c (d ∷ cs) h u = elim (Bool-cases (text_eq.beq c d)) [
  | inl same ↦
      let e : is_unknown d ≡ true = ap is_unknown (sym ((text_eq.beq_iff c d).0 same)) ∙ u in
      rw (same, e) (omega arith)
  | inr other ↦
      let ih : unknown_before c cs < unknown_in cs = unknown_before-lt c cs (ground arith) u in
      elim (Bool-cases (is_unknown d)) [
        | inl e ↦ rw (other, e) (omega (arith, ih))
        | inr e ↦ rw (other, e) ih
      ]
]

pub unknown_before-ne :
    (c e : Text) (cs : List Text)
    → text_eq.beq c e ≡ false
    → contains c cs ≡ true
    → contains e cs ≡ true
    → is_unknown c ≡ true
    → is_unknown e ≡ true
    → unknown_before c cs ≢ unknown_before e cs
unknown_before-ne c e [] ne h g u v = cc
unknown_before-ne c e (d ∷ cs) ne h g u v =
    let c_here : text_eq.beq c d ≡ true → is_unknown d ≡ true =
      λ same. ap is_unknown (sym ((text_eq.beq_iff c d).0 same)) ∙ u in
    let e_here : text_eq.beq e d ≡ true → is_unknown d ≡ true =
      λ same. ap is_unknown (sym ((text_eq.beq_iff e d).0 same)) ∙ v in
    let apart : text_eq.beq c d ≡ true → text_eq.beq e d ≡ true → ⊥ =
      λ p q. ground (arith, text_eq.beq_iff c d, text_eq.beq_iff e d, text_eq.beq_iff c e) in
    let ih : contains c cs ≡ true
        → contains e cs ≡ true
        → unknown_before c cs ≢ unknown_before e cs =
      λ p q. unknown_before-ne c e cs ne p q u v in
    ground (arith, c_here, e_here, apart, ih)
