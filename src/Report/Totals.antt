-- ===== src/Report/Totals.antt =====
-- `build_summary` of report.py, from the cells on.
use time_sensitive_packet.Base.{
  ◌≡◌, ◌≢◌, AllOf, AllOf-imp, AllOf-map, map_result-Gives, refl, sym, ap, ◌∙◌, Bool, true, false,
  Option, none, some, List, [], ◌∷◌, map, arith, ltb, if◌then◌else◌, Bool-cases, inl, inr, Result,
  ok, err, Gives, Gives-bind, ok-injective, Text, text_eq, contains, lookup, value_error,
}
use time_sensitive_packet.Base.Int.{ℤ}
use time_sensitive_packet.Floats.{FloatOps}
use time_sensitive_packet.Numpy.{IntArrays}
use time_sensitive_packet.Numpy.Samples.{FloatArrays, IsTotal}
use time_sensitive_packet.Stats.Bootstrap.{Generator, Statistic, resolve_statistic}
use time_sensitive_packet.Stats.Bootstrap.Resamples.{GeneratorLaws, IsSeed, IsConfidence}
use time_sensitive_packet.Stats.Compare.{Comparison, aggregate_of, per_run_aggregate}
use time_sensitive_packet.Stats.Compare.Returns.{compare-returns}
use time_sensitive_packet.Metrics.Distribution.{
  jitter_values, latency_percentiles, distribution_summary, latency_summary,
}
use time_sensitive_packet.Metrics.Distribution.Keys.{distribution_summary-keys}
use time_sensitive_packet.Dataset.{Cell, n_runs, latency_ms, jitter_us}
use time_sensitive_packet.Report.{
  latency_p50, latency_p99, jitter_p99, choose_baseline, names_of, Metric, comparison_metrics,
  ComparisonRow, Summary, both_aggregates, per_run_of, cell_summary, compare_cells, comparisons,
  cell_summaries, summarize,
}
use Prim.Native.String.{String}

-- A name that is requested is the baseline, if it is there.
lookup-there :
    {V : Type 0} (c : Text) (d : List (Text × V))
    → contains c (names_of d) ≡ true
    → (v : V) × (lookup c d ≡ some v)
lookup-there c [] h = cc
lookup-there c ((k, v) ∷ d) h = elim (Bool-cases (text_eq.beq c k)) [
  | inl same ↦ (v, rw same refl)
  | inr other ↦ let (w, e) = lookup-there c d (ground arith) in (w, rw other e)
]

-- What numpy takes: a seed that is not negative, a confidence level whose percentages are from 0 to
-- 100, and a method that it knows for the percentiles of the summary and of the comparisons.
pub record Accepted (F : FloatOps) (np : FloatArrays F) (float_of : String → Result F.Float)
    (gen : Generator) (laws : GeneratorLaws gen) (method : String) (ci : F.Float) (seed : ℤ)
    : Type 0 where
  pub p50 : Statistic F
  pub p99 : Statistic F
  pub known_50 : resolve_statistic F np float_of "p50" method ≡ ok p50
  pub known_99 : resolve_statistic F np float_of "p99" method ≡ ok p99
  pub p50-IsTotal : IsTotal F p50
  pub p99-IsTotal : IsTotal F p99
  pub labels-AreTotal : AllOf (λ q. IsTotal F (np.percentile method q)) (latency_percentiles F)
  pub seed-IsSeed : IsSeed seed
  pub ci-IsConfidence : IsConfidence F np float_of gen laws ci

-- A cell with a run, as the dataset makes them, whose runs have two packets or more, so that they
-- have jitters.
abbrev pub IsFull : (F : FloatOps) → Cell F → Type 0
IsFull F cell =
    (cell.runs ≢ [])
    × AllOf (λ r. (r.latency_ms ≢ []) × (jitter_values F r.jitter_us ≢ [])) cell.runs

module _ (F : FloatOps) (ints : IntArrays) (np : FloatArrays F) (format_g : F.Float → Text)
    (float_of : String → Result F.Float) (gen : Generator) (laws : GeneratorLaws gen)
    (method : String) (ci : F.Float) (n_boot seed : ℤ)
    (accepted : Accepted F np float_of gen laws method ci seed) where
  -- The names other than the baseline.
  abbrev pub others : Text → List Text → List Text
  others base [] = []
  others base (c ∷ names) = if text_eq.beq c base then others base names else c ∷ others base names

  per_run_aggregate-Gives :
      (samples : List (List F.Float))
      → AllOf (λ xs. xs ≢ []) samples
      → Gives (λ a. Unit {0}) (per_run_aggregate F np float_of samples "p99" ci method)
  unfolding per_run_aggregate
  per_run_aggregate-Gives samples there =
      let (per_run, e, n) = map_result-Gives (λ xs. xs ≢ []) accepted.p99 samples value there in
      (aggregate_of F np "p99" ci per_run, rw (accepted.known_99, e) refl, tt)
    where
      value : (xs : List F.Float) → xs ≢ [] → Gives (λ v. Unit {0}) (accepted.p99 xs)
      value [] h = absurd (h refl)
      value (x ∷ xs) h = accepted.p99-IsTotal x xs

  per_run_of-Gives :
      (several : Bool) (cell : Cell F)
      → IsFull F cell
      → Gives (λ p. Unit {0}) (per_run_of F ints np format_g float_of gen method ci several cell)
  unfolding both_aggregates
  per_run_of-Gives false cell full = (none, refl, tt)
  per_run_of-Gives true cell (some_run, full) =
      Gives-bind (λ a. Unit {0}) (λ p. Unit {0}) _ _
        (per_run_aggregate-Gives (map (λ r. r.latency_ms) cell.runs) (
          AllOf-map (λ xs. xs ≢ []) (λ r. r.latency_ms) cell.runs
            (AllOf-imp _ (λ r. r.latency_ms ≢ []) cell.runs (λ r h. h.0) full)))
        (λ latency t.
          Gives-bind (λ a. Unit {0}) (λ p. Unit {0}) _ _
            (per_run_aggregate-Gives (map (λ r. jitter_values F r.jitter_us) cell.runs) (
              AllOf-map (λ xs. xs ≢ []) (λ r. jitter_values F r.jitter_us) cell.runs
                (AllOf-imp _ (λ r. jitter_values F r.jitter_us ≢ []) cell.runs (λ r h. h.1) full)))
            (λ jitter u. (some (latency, jitter), refl, tt)))

  cell_summary-Gives :
      (cell : Cell F)
      → IsFull F cell
      → Gives
          (λ s. s.condition ≡ cell.condition)
          (cell_summary F ints np format_g float_of gen method ci cell)
  unfolding cell_summary latency_summary
  cell_summary-Gives cell full =
      Gives-bind (λ d. Unit {0}) (λ s. s.condition ≡ cell.condition) _ _ (made (latency_ms F cell))
        (λ latency t.
          Gives-bind (λ d. Unit {0}) (λ s. s.condition ≡ cell.condition) _ _
            (made (jitter_us F cell))
            (λ jitter u.
              Gives-bind (λ p. Unit {0}) (λ s. s.condition ≡ cell.condition) _ _
                (per_run_of-Gives (ltb 1 (n_runs F cell)) cell full) (λ p v. (_, refl, refl))))
    where
      made :
          (values : List F.Float)
          → Gives
              (λ d. Unit {0})
              (distribution_summary F np format_g values (latency_percentiles F) method)
      made values =
          let (d, e, k) =
            distribution_summary-keys F np format_g values (latency_percentiles F) method
              (λ h. accepted.labels-AreTotal) in
          (d, e, tt)

  cell_summaries-Gives :
      (cells : List (Text × Cell F))
      → AllOf (λ c. IsFull F c.1) cells
      → Gives
          (λ ss. map (λ s. s.condition) ss ≡ map (λ c. c.1.condition) cells)
          (cell_summaries F ints np format_g float_of gen method ci n_boot seed cells)
  unfolding cell_summaries
  cell_summaries-Gives [] full = ([], refl, refl)
  cell_summaries-Gives ((c, cell) ∷ cells) (full, fulls) =
      let (first, e, same) = cell_summary-Gives cell full in
      let (rest, g, others) = cell_summaries-Gives cells fulls in
      (first ∷ rest, rw (e, g) refl, ap2_cons same others)
    where
      ap2_cons : {a b : Text} {xs ys : List Text} → a ≡ b → xs ≡ ys → a ∷ xs ≡ b ∷ ys
      ap2_cons e g = rw (e, g) refl

  abbrev HasLabels : List (Metric F) → Option (List (String × Comparison F)) → Type 0
  HasLabels metrics o =
      (rows : List (String × Comparison F)) × (o ≡ some rows)
      × (map (λ r. r.0) rows ≡ map (λ m. m.label) metrics)

  compare_cells-step :
      (m : Metric F) (metrics : List (Metric F)) (stat : Statistic F) (base other : Cell F)
      → resolve_statistic F np float_of m.stat method ≡ ok stat
      → IsTotal F stat
      → Gives
          (HasLabels metrics)
          (compare_cells F ints np format_g float_of gen method ci n_boot seed metrics base other)
      → Gives (HasLabels (m ∷ metrics)) (
          compare_cells F ints np format_g float_of gen method ci n_boot seed
            (m ∷ metrics)
            base
            other)
  unfolding compare_cells
  compare_cells-step m metrics stat base other known returns (o, e, (rows, r, labels)) =
      let (c, g, base_point, other_point, change) =
        compare-returns F np float_of gen laws (m.samples base) (m.samples other) m.stat method
          n_boot ci seed stat accepted.seed-IsSeed accepted.ci-IsConfidence known returns in
      (
        some ((m.label, c) ∷ rows),
        rw (g, e, r) refl,
        ((m.label, c) ∷ rows, refl, ap (λ ls. m.label ∷ ls) labels),
      )

  compare_cells-Gives :
      (base other : Cell F)
      → Gives (HasLabels (comparison_metrics F)) (
          compare_cells F ints np format_g float_of gen method ci n_boot seed
            (comparison_metrics F)
            base
            other)
  unfolding compare_cells
  compare_cells-Gives base other =
      compare_cells-step (latency_p50 F) (latency_p99 F ∷ jitter_p99 F ∷ []) accepted.p50 base other
        accepted.known_50 accepted.p50-IsTotal
        (compare_cells-step (latency_p99 F) (jitter_p99 F ∷ []) accepted.p99 base other
          accepted.known_99 accepted.p99-IsTotal
          (compare_cells-step (jitter_p99 F) [] accepted.p99 base other accepted.known_99
            accepted.p99-IsTotal (some [], refl, ([], refl, refl))))

  -- The rows are for the conditions other than the baseline, each with all metrics.
  abbrev pub HasRows : Text → List (Text × Cell F) → List (ComparisonRow F) → Type 0
  HasRows base cells rows =
      (map (λ r. r.condition) rows ≡ others base (names_of cells))
      × (map (λ r. map (λ m. m.0) r.metrics) rows
          ≡ map (λ c. map (λ m. m.label) (comparison_metrics F)) (others base (names_of cells)))

  comparisons-Gives :
      (base : Text) (base_cell : Cell F) (cells : List (Text × Cell F))
      → Gives
          (λ o. (rows : List (ComparisonRow F)) × (o ≡ some rows) × HasRows base cells rows)
          (comparisons F ints np format_g float_of gen method ci n_boot seed base base_cell cells)
  unfolding comparisons
  comparisons-Gives base base_cell [] = (some [], refl, ([], refl, (refl, refl)))
  comparisons-Gives base base_cell ((c, cell) ∷ cells) =
      let (o, e, (rows, r, h)) = comparisons-Gives base base_cell cells in
      elim (Bool-cases (text_eq.beq c base)) [
        | inl same ↦ (o, rw (same, comparisons) e, (rows, r, rw same h))
        | inr other ↦
            let (found, g, (metrics, f, labels)) = compare_cells-Gives base_cell cell in
            (
              some (record { condition = c; baseline = base; metrics = metrics } ∷ rows),
              rw (other, comparisons, g, e, f, r) refl,
              (
                record { condition = c; baseline = base; metrics = metrics } ∷ rows,
                refl,
                rw other (ap (λ cs. c ∷ cs) h.0, rw (labels, h.1) refl),
              ),
            )
      ]

  -- The whole summary, for a baseline that is chosen.
  pub record IsComplete (cells : List (Text × Cell F)) (base : Text) (s : Summary F) : Type 0 where
    pub baseline_lem : s.baseline ≡ base
    pub conditions_lem : s.conditions ≡ names_of cells
    pub cells_lem : map (λ s. s.condition) s.cells ≡ map (λ c. c.1.condition) cells
    pub rows : HasRows base cells s.comparisons

  choose_baseline-there :
      (names : List Text) (requested : Option Text) (base : Text)
      → choose_baseline names requested ≡ ok base
      → contains base names ≡ true
  unfolding choose_baseline
  choose_baseline-there names (some r) base h = elim (Bool-cases (contains r names)) [
    | inl there ↦
        let e : r ≡ base = ok-injective (rw there at h) in
        ap (λ c. contains c names) (sym e) ∙ there
    | inr absent ↦ absurd (absent_err (contains r names) r base absent h)
  ]
    where
      absent_err :
          (b : Bool) (r base : Text)
          → b ≡ false
          → (if b then ok r else err value_error) ≡ ok base
          → ⊥
      absent_err true r base e h = cc
      absent_err false r base e h = cc
  choose_baseline-there [] none base h = cc
  choose_baseline-there (c ∷ names) none base h =
      let e : c ≡ base = ok-injective h in ground (arith, e, text_eq.beq_iff base c)

  -- If numpy takes the method, the confidence level and the seed, each condition has a run, each run
  -- two packets or more, and the baseline can be chosen, the summary is made: it has a cell summary for each condition, and for each condition other than the baseline one row
  -- with all three metrics.
  pub summarize-IsComplete :
      (cells : List (Text × Cell F)) (requested : Option Text) (base : Text)
      → AllOf (λ c. IsFull F c.1) cells
      → choose_baseline (names_of cells) requested ≡ ok base
      → (s : Summary F) × (summarize F ints np format_g float_of gen method ci n_boot seed cells
            requested
          ≡ ok (some s))
        × IsComplete cells base s
  unfolding summarize
  summarize-IsComplete cells requested base full h =
      let (summaries, es, conditions) = cell_summaries-Gives cells full in
      let (base_cell, found) =
        lookup-there base cells (choose_baseline-there (names_of cells) requested base h) in
      let (o, eo, (rows, r, has)) = comparisons-Gives base base_cell cells in
      (
        record {
          baseline = base;
          conditions = names_of cells;
          cells = summaries;
          comparisons = rows;
        },
        rw (h, es, found, eo, r) refl,
        record { baseline_lem = refl; conditions_lem = refl; cells_lem = conditions; rows = has },
      )
