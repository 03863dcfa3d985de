-- ===== src/Plots/Bars.antt =====
-- The figure of the percentiles.
pub mod Numbers
use time_sensitive_packet.Base.{
  ℕ, ◌≡◌, ◌⊎◌, true, false, List, ◌++◌, map, length, AllOf, Result, Text,
}
use time_sensitive_packet.Base.Int.{ℤ, pos}
use time_sensitive_packet.Floats.{FloatOps, FloatOrder}
use time_sensitive_packet.Numpy.Samples.{FloatArrays}
use time_sensitive_packet.Dataset.{Cell}
use time_sensitive_packet.Plots.{at_least, is_positive, BarGroup, Annotation, annotation_of}
use time_sensitive_packet.Plots.Bars.Numbers.{visible, all_visible, IsAmong}

module _ (F : FloatOps) (order : FloatOrder F) (np : FloatArrays F)
    (float_of : Text → Result F.Float) (fixed general : ℕ → F.Float → Text) where
  -- A height that a logarithmic axis can show, or none.
  abbrev pub IsLoggable : F.Float → Type 0
  IsLoggable v = (v ≡ F.nan) ⊎ (is_positive F v ≡ true)

  abbrev HaveHeights : List (Text × Cell F) → List F.Float → Type 0
  HaveHeights cells values = (length values ≡ length cells) × AllOf IsLoggable values

  -- `top` is not below a number among the heights.
  abbrev pub Covers : F.Float → F.Float → Type 0
  Covers top v = F.is_nan v ≡ false → F.lt top v ≡ false

  record Annotated (heights : List F.Float) (top : F.Float) (texts : List (Annotation F))
      (result : F.Float × List (Annotation F)) : Type 0 where
    grows : (u : F.Float) → F.lt top u ≡ false → F.lt result.0 u ≡ false
    covers : AllOf (Covers result.0) heights
    among : (result.0 ≡ top) ⊎ IsAmong F result.0 (visible F heights)
    numbers :
        result.1 ≡ texts ++ map (annotation_of F np float_of fixed general) (visible F heights)

  -- A group whose heights can be shown, one for each condition, none above `top`.
  abbrev pub IsGroup : List (Text × Cell F) → F.Float → BarGroup F → Type 0
  IsGroup cells top g =
      (length g.heights ≡ length cells)
      × (length g.positions ≡ length cells)
      × AllOf IsLoggable g.heights
      × AllOf (Covers top) g.heights

  abbrev Drawn : Type 0
  Drawn = List (BarGroup F) × F.Float × List (Annotation F)

  record IsDrawing (stats : List (ℤ × Text)) (cells : List (Text × Cell F)) (top : F.Float)
      (texts : List (Annotation F)) (result : Drawn) : Type 0 where
    grows : (u : F.Float) → F.lt top u ≡ false → F.lt result.1 u ≡ false
    groups : AllOf (IsGroup cells result.1) result.0
    names : map (λ g. g.name) result.0 ≡ map (λ s. s.1) stats
    among : (result.1 ≡ top) ⊎ IsAmong F result.1 (all_visible F result.0)
    numbers :
        result.2 ≡ texts ++ map (annotation_of F np float_of fixed general) (all_visible F result.0)
