-- ===== src/Plots.antt =====
-- analysis/tsn_analysis/plots.py: what the two figures show, as values. matplotlib draws them; its
-- settings, and the texts of axes and titles, are not modelled.
pub mod Styles
pub mod Curves
pub mod Bars
use time_sensitive_packet.Base.{
  ℕ, suc, ◌+◌, ◌%◌, Bool, true, false, ◌||◌, not, Option, none, some, List, [], ◌∷◌, ◌++◌, map,
  length, drop, get_or, if◌then◌else◌, Result, ok, err, ◌>>=◌, value_error, key_error, raise_if,
  Text, chars, text_eq, contains, lookup, insert,
}
use time_sensitive_packet.Base.Int.{ℤ, pos, negsuc}
use time_sensitive_packet.Floats.{FloatOps}
use time_sensitive_packet.Numpy.Samples.{FloatArrays}
use time_sensitive_packet.Metrics.Distribution.{percentiles_of}
use time_sensitive_packet.Loader.{Table}
use time_sensitive_packet.Dataset.{Cell, latency_ms, build_dataset}

-- A colour and a line style.
pub record Style : Type 0 where
  pub color : Text
  pub dash : Text

abbrev style : Text → Text → Style
style color dash = record { color = color; dash = dash }

abbrev pub known_styles : List (Text × Style)
known_styles =
    (chars "fifo", style (chars "#9E9E9E") (chars "--"))
    ∷ (chars "fq_codel", style (chars "#7B68EE") (chars "-"))
    ∷ (chars "pfifo_fast_noclsf", style (chars "#424242") (chars "-"))
    ∷ (chars "pfifo_fast_clsf", style (chars "#E8734A") (chars "-"))
    ∷ (chars "prio_clsf", style (chars "#A93226") (chars "--"))
    ∷ []

abbrev pub fallback_colors : List Text
fallback_colors =
    chars "#1F77B4" ∷ chars "#2CA02C" ∷ chars "#8C564B" ∷ chars "#E377C2" ∷ chars "#17BECF" ∷ []

abbrev pub stat_colors : List (Text × Text)
stat_colors =
    (chars "p50", chars "#1F3A5F")
    ∷ (chars "p99", chars "#4F81B0")
    ∷ (chars "max", chars "#B5CBE3")
    ∷ []

-- The style of the condition after `extra` unknown ones.
abbrev pub fallback_style : ℕ → Style
fallback_style extra = style (get_or fallback_colors (extra % 5) []) (chars "-")

-- The loop of `condition_styles`.
unfoldable pub styles_from : List Text → ℕ → List (Text × Style) → List (Text × Style)
styles_from [] extra styles = styles
styles_from (c ∷ conditions) extra styles = elim (lookup c known_styles) [
  | some known ↦ styles_from conditions extra (insert c known styles)
  | none ↦ styles_from conditions (suc extra) (insert c (fallback_style extra) styles)
]

unfoldable pub condition_styles : List Text → List (Text × Style)
unfolding styles_from
condition_styles conditions = styles_from conditions 0 []

module _ (F : FloatOps) where
  abbrev pub is_positive : F.Float → Bool
  is_positive v = F.lt (F.of_int (pos 0)) v

  -- `v >= w`
  abbrev pub at_least : F.Float → F.Float → Bool
  at_least v w = F.lt w v || F.equal v w

  -- The bars of one statistic: their positions, and one height for each condition.
  pub record BarGroup : Type 0 where
    pub name : Text
    pub color : Text
    pub positions : List F.Float
    pub heights : List F.Float

  -- A number over a bar.
  pub record Annotation : Type 0 where
    pub height : F.Float
    pub text : Text

  pub record BarFigure : Type 0 where
    pub groups : List BarGroup
    pub annotations : List Annotation
    -- The upper end of the axis, where it is set.
    pub limit : Option F.Float
    pub ticks : List Text

  -- One line of the figure of the distributions.
  pub record Curve : Type 0 where
    pub label : Text
    pub style : Style
    pub points : List (F.Float × F.Float)
    pub zorder : ℕ

  module _ (np : FloatArrays F) (float_of : Text → Result F.Float) where
    -- `v if v > 0 else float("nan")`
    abbrev pub positive_or_nan : F.Float → F.Float
    positive_or_nan v = if is_positive v then v else F.nan

    abbrev pub one_of : List F.Float → F.Float
    one_of [] = F.nan
    one_of (v ∷ vs) = v

    unfoldable pub stat_of : List F.Float → Text → Result F.Float
    stat_of [] name = ok F.nan
    stat_of (x ∷ values) name = elim (text_eq.beq name (chars "max")) [
      | true ↦ ok (positive_or_nan (np.largest (x ∷ values)))
      | false ↦ (do
        q ← float_of (drop 1 name)
        vs ← percentiles_of F np (x ∷ values) (q ∷ []) "linear"
        ok (positive_or_nan (one_of vs)))
    ]

    -- `[_stat(cells[c].latency_ms, st) for c in names]`
    unfoldable pub heights_of : Text → List (Text × Cell F) → Result (List F.Float)
    unfolding stat_of
    heights_of name [] = ok []
    heights_of name ((c, cell) ∷ cells) = do
      v ← stat_of (latency_ms F cell) name
      rest ← heights_of name cells
      ok (v ∷ rest)

    module _ (fixed : ℕ → F.Float → Text) (general : ℕ → F.Float → Text) where
      -- `f"{v:.0f}"`, `f"{v:.1f}"` or `f"{v:.2g}"`
      abbrev pub label_of : F.Float → Text
      label_of v =
          if at_least v (F.of_int (pos 100))
          then fixed 0 v
          else (if at_least v (F.of_int (pos 1)) then fixed 1 v else general 2 v)

      -- `max(top, v)`
      abbrev pub larger : F.Float → F.Float → F.Float
      larger top v = if F.lt top v then v else top

      abbrev pub annotation_of : F.Float → Annotation
      annotation_of v = record { height = F.times v (F.decimal 11 1); text = label_of v }

      -- The loop over the bars of a group: the largest height so far and the numbers.
      unfoldable pub annotate : List F.Float → F.Float → List Annotation → F.Float × List Annotation
      annotate [] top texts = (top, texts)
      annotate (v ∷ heights) top texts =
          if F.is_nan v
          then annotate heights top texts
          else annotate heights (larger top v) (texts ++ annotation_of v ∷ [])

      -- `x + (i - 1) * width`
      abbrev pub positions_from : ℕ → ℤ → List F.Float → List F.Float
      positions_from j offset [] = []
      positions_from j offset (v ∷ heights) =
          F.plus (F.of_int (pos j)) (F.times (F.of_int offset) (F.decimal 27 2))
          ∷ positions_from (suc j) offset heights

      abbrev pub color_of : Option Text → Result Text
      color_of none = err key_error
      color_of (some c) = ok c

      -- The loop over the statistics, each with its offset.
      unfoldable pub draw_groups :
          List (ℤ × Text)
          → List (Text × Cell F)
          → F.Float
          → List Annotation
          → Result (List BarGroup × F.Float × List Annotation)
      unfolding heights_of annotate
      draw_groups [] cells top texts = ok ([], top, texts)
      draw_groups ((offset, st) ∷ stats) cells top texts = do
        values ← heights_of st cells
        color ← color_of (lookup st stat_colors)
        rest ← draw_groups stats cells (annotate values top texts).0 (annotate values top texts).1
        ok (
          record {
            name = st;
            color = color;
            positions = positions_from 0 offset values;
            heights = values;
          }
              ∷ rest.0,
          rest.1,
          rest.2,
        )

      abbrev pub names_in : List (Text × Cell F) → List Text
      names_in [] = []
      names_in ((c, cell) ∷ cells) = c ∷ names_in cells

      abbrev pub plotted_stats : List (ℤ × Text)
      plotted_stats = (negsuc 0, chars "p50") ∷ (pos 0, chars "p99") ∷ (pos 1, chars "max") ∷ []

      abbrev pub limit_of : F.Float → Option F.Float
      limit_of top = if is_positive top then some (F.times top (F.of_int (pos 6))) else none

      unfoldable pub plot_latency_percentiles : List (Text × Cell F) → Result BarFigure
      unfolding draw_groups
      plot_latency_percentiles cells = do
        drawn ← draw_groups plotted_stats cells (F.decimal 0 1) []
        ok (record {
          groups = drawn.0;
          annotations = drawn.2;
          limit = limit_of drawn.1;
          ticks = names_in cells;
        })

      -- `lat[keep]` and `frac[keep]`: the points whose place in the sorted sample is i + 1, i + 2, ...
      unfoldable pub points_from : ℕ → ℕ → List F.Float → List (F.Float × F.Float)
      points_from i n [] = []
      points_from i n (x ∷ lat) =
          let rest = points_from (suc i) n lat in
          if is_positive x
          then (x, F.over (F.of_int (pos (suc i))) (F.of_int (pos n))) ∷ rest
          else rest

      -- `3 if dash != "-" else 2`
      abbrev pub zorder_of : Text → ℕ
      zorder_of dash = if not (text_eq.beq dash (chars "-")) then 3 else 2

      unfoldable pub curve_of : Text → Style → Cell F → Curve
      unfolding points_from
      curve_of c style cell = record {
        label = c;
        style = style;
        points = points_from 0 (length (np.sort (latency_ms F cell))) (np.sort (latency_ms F cell));
        zorder = zorder_of style.dash;
      }

      -- `styles[cond]`
      abbrev pub style_at : Option Style → Result Style
      style_at none = err key_error
      style_at (some s) = ok s

      unfoldable pub curves_of : List (Text × Style) → List (Text × Cell F) → Result (List Curve)
      unfolding curve_of
      curves_of styles [] = ok []
      curves_of styles ((c, cell) ∷ cells) = do
        style ← style_at (lookup c styles)
        rest ← curves_of styles cells
        ok (curve_of c style cell ∷ rest)

      unfoldable pub plot_latency_cdf : List (Text × Cell F) → Result (List Curve)
      unfolding curves_of condition_styles
      plot_latency_cdf cells = curves_of (condition_styles (names_in cells)) cells

      -- The two figures, and the paths that `plot_all` returns for them.
      pub record Figures : Type 0 where
        pub percentiles : BarFigure
        pub cdf : List Curve
        pub paths : List Text

      abbrev pub no_cells : List (Text × Cell F) → Bool
      no_cells [] = true
      no_cells (c ∷ cells) = false

      -- `make_directory` is `out_dir.mkdir`.
      unfoldable pub plot_all :
          (Text → Result (Unit {0})) → List (Text × Table) → Text → Result Figures
      unfolding plot_latency_percentiles plot_latency_cdf
      plot_all make_directory files out_dir = do
        cells ← build_dataset F float_of files
        nonempty ← raise_if (no_cells cells) value_error
        made ← make_directory out_dir
        percentiles ← plot_latency_percentiles cells
        cdf ← plot_latency_cdf cells
        ok (record {
          percentiles = percentiles;
          cdf = cdf;
          paths =
              (out_dir ++ chars "/fig_latency_percentiles.png")
              ∷ (out_dir ++ chars "/fig_latency_cdf.png")
              ∷ [];
        })
