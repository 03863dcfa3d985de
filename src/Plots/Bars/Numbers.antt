-- ===== src/Plots/Bars/Numbers.antt =====
-- The heights and the numbers that the figure of the percentiles shows.
use time_sensitive_packet.Base.{
  if◌then◌else◌, ℕ, ◌≡◌, ◌⊎◌, refl, inl, inr, true, false, List, [], ◌∷◌, ◌++◌, map, Result, Text,
  text_eq, Bool-cases,
}
use time_sensitive_packet.Base.Int.{pos}
use time_sensitive_packet.Floats.{FloatOps}
use time_sensitive_packet.Numpy.Samples.{FloatArrays}
use time_sensitive_packet.Plots.{at_least, BarGroup, Annotation, annotation_of}

module _ (F : FloatOps) where
  -- The heights that are shown.
  abbrev pub visible : List F.Float → List F.Float
  visible [] = []
  visible (v ∷ heights) = if F.is_nan v then visible heights else v ∷ visible heights

  abbrev pub all_visible : List (BarGroup F) → List F.Float
  all_visible [] = []
  all_visible (g ∷ groups) = visible g.heights ++ all_visible groups

  abbrev pub IsAmong : F.Float → List F.Float → Type 0
  IsAmong v [] = ⊥
  IsAmong v (x ∷ xs) = (v ≡ x) ⊎ IsAmong v xs

  pub IsAmong-left : (v : F.Float) (xs ys : List F.Float) → IsAmong v xs → IsAmong v (xs ++ ys)
  IsAmong-left v [] ys h = absurd h
  IsAmong-left v (x ∷ xs) ys (inl e) = inl e
  IsAmong-left v (x ∷ xs) ys (inr h) = inr (IsAmong-left v xs ys h)

  pub IsAmong-right : (v : F.Float) (xs ys : List F.Float) → IsAmong v ys → IsAmong v (xs ++ ys)
  IsAmong-right v [] ys h = h
  IsAmong-right v (x ∷ xs) ys h = inr (IsAmong-right v xs ys h)

  module _ (fixed general : ℕ → F.Float → Text) where
    -- The number as it is printed: without a digit behind the point from 100 on, with one from 1 on,
    -- and else with two digits.
    abbrev pub IsLabel : F.Float → Text → Type 0
    IsLabel v t =
        ((at_least F v (F.of_int (pos 100)) ≡ true) × (t ≡ fixed 0 v))
        ⊎ (((at_least F v (F.of_int (pos 100)) ≡ false)
              × (at_least F v (F.of_int (pos 1)) ≡ true)
              × (t ≡ fixed 1 v))
            ⊎ ((at_least F v (F.of_int (pos 100)) ≡ false)
                × (at_least F v (F.of_int (pos 1)) ≡ false)
                × (t ≡ general 2 v)))

    -- One number for each height, a tenth above it.
    abbrev pub AreNumbers : List F.Float → List (Annotation F) → Type 0
    AreNumbers [] [] = Unit
    AreNumbers [] (a ∷ texts) = ⊥
    AreNumbers (v ∷ heights) [] = ⊥
    AreNumbers (v ∷ heights) (a ∷ texts) =
        (a.height ≡ F.times v (F.decimal 11 1)) × IsLabel v a.text × AreNumbers heights texts

    module _ (np : FloatArrays F) (float_of : Text → Result F.Float) where
      annotation_of-IsLabel :
          (v : F.Float) → IsLabel v (annotation_of F np float_of fixed general v).text
      annotation_of-IsLabel v = elim (Bool-cases (at_least F v (F.of_int (pos 100)))) [
        | inl e ↦ rw e (inl (refl, refl))
        | inr e ↦ elim (Bool-cases (at_least F v (F.of_int (pos 1)))) [
          | inl g ↦ rw (e, g) (inr (inl (refl, refl, refl)))
          | inr g ↦ rw (e, g) (inr (inr (refl, refl, refl)))
        ]
      ]

      pub map-AreNumbers :
          (heights : List F.Float)
          → AreNumbers heights (map (annotation_of F np float_of fixed general) heights)
      map-AreNumbers [] = tt
      map-AreNumbers (v ∷ heights) = (refl, annotation_of-IsLabel v, map-AreNumbers heights)
