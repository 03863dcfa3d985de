-- ===== src/Report/Markdown/Built.antt =====
-- From the cells to the text: `build_summary` and `render_markdown` of report.py one after the other.
use time_sensitive_packet.Base.{
  AllOf, ◌≡◌, refl, sym, ap, ◌∙◌, true, Option, none, some, List, [], ◌∷◌, map, Bool-cases, inl,
  inr, Result, ok, Gives, OnOk, OnOk-any, OnOk-bind, Text, chars, text_eq, contains, lookup, ltb,
  if_lem, join,
}
use time_sensitive_packet.Base.Int.{ℤ}
use time_sensitive_packet.Floats.{FloatOps}
use time_sensitive_packet.Numpy.{IntArrays}
use time_sensitive_packet.Numpy.Samples.{FloatArrays, IsTotal}
use time_sensitive_packet.Metrics.Distribution.{
  latency_percentiles, distribution_summary, latency_summary,
}
use time_sensitive_packet.Metrics.Distribution.Keys.{keys_of, with_keys, distribution_summary-keys}
use time_sensitive_packet.Stats.Bootstrap.{Generator}
use time_sensitive_packet.Stats.Bootstrap.Resamples.{GeneratorLaws}
use time_sensitive_packet.Dataset.{Cell, n_runs, latency_ms, jitter_us}
use time_sensitive_packet.Report.{
  choose_baseline, names_of, comparison_metrics, CellSummary, ComparisonRow, Summary, per_run_of,
  cell_summary, cell_summaries, cell_at, comparisons, summary_of, summarize,
}
use time_sensitive_packet.Report.Totals.{Accepted, IsFull, others, HasRows, summarize-IsComplete}
use time_sensitive_packet.Report.Markdown.{Formats, Options, statistics, render_markdown}
use time_sensitive_packet.Report.Markdown.Tables.{IsPlain}
use time_sensitive_packet.Report.Markdown.Plain.{◌and◌, FormatsLaws, HasFigures}
use time_sensitive_packet.Report.Markdown.Rows.{IsPrintable, IsComparable}
use time_sensitive_packet.Report.Markdown.Render.{IsRendered, render_lines-IsRendered}
use mathlib.Core.Path.{subst}
use Prim.Native.String.{String}

AllOf-map :
    {A B : Type 0} (P : B → Type 0) (f : A → B) (xs : List A)
    → AllOf P (map f xs)
    → AllOf (λ x. P (f x)) xs
AllOf-map P f [] h = tt
AllOf-map P f (x ∷ xs) (h, hs) = (h, AllOf-map P f xs hs)

AllOf-const :
    {A B : Type 0} (P : B → Type 0) (b : B) (xs : List A) → P b → AllOf P (map (λ x. b) xs)
AllOf-const P b [] h = tt
AllOf-const P b (x ∷ xs) h = (h, AllOf-const P b xs h)

AllOf-zip :
    {A : Type 0} (P Q R : A → Type 0) (xs : List A)
    → ((x : A) → P x → Q x → R x)
    → AllOf P xs
    → AllOf Q xs
    → AllOf R xs
AllOf-zip P Q R [] f h g = tt
AllOf-zip P Q R (x ∷ xs) f (h, hs) (g, gs) = (f x h g, AllOf-zip P Q R xs f hs gs)

lookup-key :
    {V : Type 0} (k : Text) (d : List (Text × V))
    → contains k (keys_of d) ≡ true
    → (v : V) × (lookup k d ≡ some v)
lookup-key k [] h = cc
lookup-key k ((j, v) ∷ d) h = elim (Bool-cases (text_eq.beq k j)) [
  | inl same ↦ (v, rw same refl)
  | inr other ↦ let (w, e) = lookup-key k d (rw other at h) in (w, rw other e)
]

-- What `f"{q:g}"` is for the four percentages.
pub record LabelLaws (F : FloatOps) (format_g : F.Float → Text) : Type 0 where
  pub label_50 : format_g (F.decimal 50 0) ≡ chars "50"
  pub label_90 : format_g (F.decimal 90 0) ≡ chars "90"
  pub label_99 : format_g (F.decimal 99 0) ≡ chars "99"
  pub label_999 : format_g (F.decimal 999 1) ≡ chars "99.9"

module _ (F : FloatOps) (formats : Formats F) (laws : FormatsLaws formats) (np : FloatArrays F)
    (format_g : F.Float → Text) (labels : LabelLaws F format_g) where
  -- The keys, with the labels written out.
  summary-keys :
      (values : List F.Float) (method : String)
      → AllOf (λ q. IsTotal F (np.percentile method q)) (latency_percentiles F)
      → Gives
          (λ d. keys_of d ≡ with_keys (chars "n" ∷ chars "min" ∷ statistics) [])
          (distribution_summary F np format_g values (latency_percentiles F) method)
  summary-keys values method returns =
      let (d, e, k) =
        distribution_summary-keys F np format_g values (latency_percentiles F) method
          (λ h. returns) in
      (d, e, k ∙ rw (labels.label_50, labels.label_90, labels.label_99, labels.label_999) refl)

  keys-HasFigures :
      (d : List (Text × F.Float))
      → keys_of d ≡ with_keys (chars "n" ∷ chars "min" ∷ statistics) []
      → HasFigures F formats laws statistics d
  keys-HasFigures d keys =
      found (chars "p50") refl
      and found (chars "p90") refl
      and found (chars "p99") refl
      and found (chars "p99.9") refl
      and found (chars "max") refl
      and found (chars "mean") refl
      and found (chars "std") refl
      and tt
    where
      found :
          (k : Text)
          → contains k (with_keys (chars "n" ∷ chars "min" ∷ statistics) []) ≡ true
          → (x : F.Float) × (lookup k d ≡ some x)
      found k h = lookup-key k d (ap (contains k) keys ∙ h)

  summary-HasFigures :
      (values : List F.Float) (method : String)
      → AllOf (λ q. IsTotal F (np.percentile method q)) (latency_percentiles F)
      → OnOk
          (HasFigures F formats laws statistics)
          (distribution_summary F np format_g values (latency_percentiles F) method)
  summary-HasFigures values method returns =
      let (d, e, k) = summary-keys values method returns in
      subst (OnOk (HasFigures F formats laws statistics)) (sym e) (keys-HasFigures d k)

  -- The names that a report shows, the keys of the cells and those of their conditions.
  abbrev pub NamesPlain : List (Text × Cell F) → Type 0
  NamesPlain cells = AllOf (λ c. IsPlain c.0 × IsPlain c.1.condition) cells

  module _ (ints : IntArrays) (float_of : String → Result F.Float) (gen : Generator)
      (generator_laws : GeneratorLaws gen) (method : String) (ci : F.Float) (n_boot seed : ℤ)
      (accepted : Accepted F np float_of gen generator_laws method ci seed) where
    cell_summary-IsPrintable :
        (cell : Cell F)
        → IsPlain cell.condition
        → OnOk
            (IsPrintable F formats laws)
            (cell_summary F ints np format_g float_of gen method ci cell)
    unfolding cell_summary latency_summary
    cell_summary-IsPrintable cell plain =
        OnOk-bind (HasFigures F formats laws statistics) (IsPrintable F formats laws) _ _
          (summary-HasFigures (latency_ms F cell) method accepted.labels-AreTotal)
          (λ latency l.
            OnOk-bind (HasFigures F formats laws statistics) (IsPrintable F formats laws)
              (distribution_summary F np format_g (jitter_us F cell) (latency_percentiles F) method)
              _ (summary-HasFigures (jitter_us F cell) method accepted.labels-AreTotal)
              (λ jitter j.
                OnOk-bind (λ p. Unit {0}) (IsPrintable F formats laws)
                  (per_run_of F ints np format_g float_of gen method ci (ltb 1 (n_runs F cell))
                    cell)
                  _ (OnOk-any _) (λ p t. (plain, l, j))))

    cell_summaries-IsPrintable :
        (cells : List (Text × Cell F))
        → NamesPlain cells
        → OnOk
            (AllOf (IsPrintable F formats laws))
            (cell_summaries F ints np format_g float_of gen method ci n_boot seed cells)
    unfolding cell_summaries
    cell_summaries-IsPrintable [] h = tt
    cell_summaries-IsPrintable ((c, cell) ∷ cells) ((key_plain, plain), hs) =
        OnOk-bind (IsPrintable F formats laws) (AllOf (IsPrintable F formats laws)) _ _
          (cell_summary-IsPrintable cell plain)
          (λ first p.
            OnOk-bind (AllOf (IsPrintable F formats laws)) (AllOf (IsPrintable F formats laws)) _ _
              (cell_summaries-IsPrintable cells hs) (λ rest q. (p, q)))

    -- The names other than the baseline.
    abbrev other_names : Text → List Text → List Text
    other_names =
        others F ints np format_g float_of gen generator_laws method ci n_boot seed accepted

    others-Plain :
        (base : Text) (cells : List (Text × Cell F))
        → NamesPlain cells
        → AllOf IsPlain (other_names base (names_of cells))
    others-Plain base [] h = tt
    others-Plain base ((c, cell) ∷ cells) ((plain, other), hs) =
        if_lem (AllOf IsPlain) (text_eq.beq c base) (others-Plain base cells hs)
          (plain, others-Plain base cells hs)

    rows-IsComparable :
        (base : Text) (cells : List (Text × Cell F)) (rows : List (ComparisonRow F))
        → NamesPlain cells
        → HasRows F ints np format_g float_of gen generator_laws method ci n_boot seed accepted base
            cells rows
        → AllOf (IsComparable F formats laws) rows
    rows-IsComparable base cells rows plain (names, metrics) =
        let wanted = map (λ m. m.label) (comparison_metrics F) in
        AllOf-zip (λ r. IsPlain r.condition) (λ r. map (λ m. m.0) r.metrics ≡ wanted)
          (IsComparable F formats laws) rows
          (λ r h e. (
            h,
            AllOf-map (λ l. IsPlain (chars l)) (λ m. m.0) r.metrics
                (subst (AllOf (λ l. IsPlain (chars l))) (sym e) (refl and refl and refl and tt)),
          ))
          (AllOf-map IsPlain (λ r. r.condition) rows
            (subst (AllOf IsPlain) (sym names) (others-Plain base cells plain)))
          (AllOf-map (λ ls. ls ≡ wanted) (λ r. map (λ m. m.0) r.metrics) rows
            (subst (AllOf (λ ls. ls ≡ wanted)) (sym metrics)
              (AllOf-const (λ ls. ls ≡ wanted) wanted (other_names base (names_of cells)) refl)))

    summary_of-cells :
        (b : Text) (names : List Text) (cells : List (CellSummary F))
        (rows : Option (List (ComparisonRow F))) (s : Summary F)
        → summary_of F ints np format_g float_of gen method ci n_boot seed b names cells rows
          ≡ some s
        → s.cells ≡ cells
    summary_of-cells b names cells none s e = cc
    summary_of-cells b names cells (some rows) s e =
        let same : record { baseline = b; conditions = names; cells = cells; comparisons = rows }
            ≡ s =
          cc in
        ap (λ s. s.cells) (sym same)

    -- What `summarize` returns has the figures that the report shows.
    summarize-IsPrintable :
        (cells : List (Text × Cell F)) (requested : Option Text) (base : Text)
        → choose_baseline (names_of cells) requested ≡ ok base
        → NamesPlain cells
        → OnOk
            (λ o. (s : Summary F) → o ≡ some s → AllOf (IsPrintable F formats laws) s.cells)
            (summarize F ints np format_g float_of gen method ci n_boot seed cells requested)
    unfolding summarize
    summarize-IsPrintable cells requested base chosen plain =
        let P : Option (Summary F) → Type 0 =
          λ o. (s : Summary F) → o ≡ some s → AllOf (IsPrintable F formats laws) s.cells in
        OnOk-bind (λ b. Unit {0}) P (choose_baseline (names_of cells) requested) _ (OnOk-any _)
          (λ b t.
            OnOk-bind (AllOf (IsPrintable F formats laws)) P _ _
              (cell_summaries-IsPrintable cells plain)
              (λ summaries p.
                OnOk-bind (λ c. Unit {0}) P
                  (cell_at F ints np format_g float_of gen method ci n_boot seed (lookup b cells)) _
                  (OnOk-any _)
                  (λ base_cell u.
                    OnOk-bind (λ r. Unit {0}) P
                      (comparisons F ints np format_g float_of gen method ci n_boot seed b base_cell
                        cells)
                      (λ rows. ok (
                        summary_of F ints np format_g float_of gen method ci n_boot seed b
                          (names_of cells) summaries rows))
                      (OnOk-any _)
                      (λ rows v s e.
                        subst (AllOf (IsPrintable F formats laws))
                          (sym (summary_of-cells b (names_of cells) summaries rows s e)) p))))

    -- If numpy takes the method, the confidence level and the seed, each condition has a run, each
    -- run two packets or more, the baseline can be chosen, the names have no bar and the formats are
    -- as documented, then the summary is made and its text too, without a missing key. A reader of
    -- the text's lines finds the tables of the report, each with its header, with a row of the
    -- header's width for each condition (two in the table of the runs for one that has several runs,
    -- and one for each metric in the table of the comparisons), in their order.
    pub summarize-renders :
        (cells : List (Text × Cell F)) (requested : Option Text) (base : Text) (tiny : F.Float)
        (options : Options F)
        → AllOf (λ c. IsFull F c.1) cells
        → choose_baseline (names_of cells) requested ≡ ok base
        → NamesPlain cells
        → (s : Summary F) × (lines : List Text) × (summarize F ints np format_g float_of gen method
              ci n_boot seed cells requested
            ≡ ok (some s))
          × (render_markdown F formats tiny options s ≡ ok (join (10 ∷ []) lines))
          × IsRendered F formats laws s lines
    unfolding render_markdown
    summarize-renders cells requested base tiny options full chosen plain =
        let (s, e, complete) =
          summarize-IsComplete F ints np format_g float_of gen generator_laws method ci n_boot seed
            accepted cells requested base full chosen in
        let printable =
          subst
            (OnOk (λ o. (s : Summary F) → o ≡ some s → AllOf (IsPrintable F formats laws) s.cells))
            e (summarize-IsPrintable cells requested base chosen plain) in
        let (lines, g, rendered) =
          render_lines-IsRendered F formats laws tiny options s (printable s refl)
            (rows-IsComparable base cells s.comparisons plain complete.rows) in
        (s, lines, e, rw g refl, rendered)
