-- ===== src/Cli.antt =====
-- analysis/tsn_analysis/cli.py, from the parsed arguments on. What a command writes is a list of
-- outputs, in order; `none` stands for a call that does not return.
pub mod Exits
pub mod Summary
use time_sensitive_packet.Base.{
  ℕ, ◌-◌, Bool, true, false, not, Option, none, some, List, [], ◌∷◌, ◌++◌, map, length, replicate,
  if◌then◌else◌, Exception, value_error, key_error, Result, ok, err, Text, chars, text_eq, contains,
  lookup, join,
}
use time_sensitive_packet.Base.Int.{ℤ, pos}
use time_sensitive_packet.Floats.{FloatOps}
use time_sensitive_packet.Numpy.{IntArrays}
use time_sensitive_packet.Numpy.Samples.{FloatArrays}
use time_sensitive_packet.Stats.Bootstrap.{Generator, BootstrapCi}
use time_sensitive_packet.Stats.Compare.{Comparison, compare}
use time_sensitive_packet.Loader.{Table}
use time_sensitive_packet.Dataset.{Cell, latency_ms, jitter_us, build_dataset}
use time_sensitive_packet.Report.{Summary as Report, names_of, build_summary}
use time_sensitive_packet.Report.Json.{Json}
use time_sensitive_packet.Report.Dict.{to_json}
use time_sensitive_packet.Report.Markdown.{Formats, Options, effect_text, render_markdown}
use time_sensitive_packet.Plots.{plot_all}
use Prim.Native.String.{String}

-- A line on one of the streams, a file with its content, or the line `error: ...` with the text of
-- an exception, which is not modelled.
pub data Output : Type 0 where
  printed : Text → Output
  printed_error : Text → Output
  complaint : Exception → Output
  written : Text → Text → Output

-- The outputs so far, and how the call ended.
pub record Action {ℓ} (A : Type ℓ) : Type ℓ where
  pub outputs : List Output
  pub result : Result (Option A)

abbrev pub returns {ℓ} : {A : Type ℓ} → A → Action A
returns a = record { outputs = []; result = ok (some a) }

abbrev pub output : Output → Action (Unit {0})
output o = record { outputs = o ∷ []; result = ok (some tt) }

-- A call that writes nothing.
abbrev pub quiet {ℓ} : {A : Type ℓ} → Result (Option A) → Action A
quiet r = record { outputs = []; result = r }

abbrev pub quietly {ℓ} : {A : Type ℓ} → Result A → Action A
quietly (err x) = quiet (err x)
quietly (ok a) = quiet (ok (some a))

abbrev pub after {ℓ} : {A : Type ℓ} → List Output → Action A → Action A
after outs action = record { outputs = outs ++ action.outputs; result = action.result }

abbrev pub continue {ℓ κ} :
    {A : Type ℓ} {B : Type κ} → List Output → Result (Option A) → (A → Action B) → Action B
continue outs (err x) next = record { outputs = outs; result = err x }
continue outs (ok none) next = record { outputs = outs; result = ok none }
continue outs (ok (some a)) next = after outs (next a)

infixl 5 ◌>>=◌
abbrev pub ◌>>=◌ {ℓ κ} : {A : Type ℓ} {B : Type κ} → Action A → (A → Action B) → Action B
action >>= next = continue action.outputs action.result next

-- `mkdir` of the parent and `write_text`, which may raise.
abbrev pub write_file : (Text → Text → Result (Unit {0})) → Text → Text → Action (Unit {0})
write_file write path content = elim (write path content) [
  | err x ↦ quiet (err x)
  | ok done ↦ output (written path content)
]

-- `_emit`
unfoldable pub emit :
    (Text → Text → Result (Unit {0})) → Text → Option Text → Bool → Action (Unit {0})
emit write text none true = output (printed text)
emit write text none false = returns tt
emit write text (some target) stdout_default =
    if text_eq.beq target (chars "-")
    then output (printed text)
    else (do done ← write_file write target text; output (printed (chars "wrote " ++ target)))

-- The arguments of the commands, as the parser gives them.
pub data MetricName : Type 0 where
  latency jitter : MetricName

-- What the programs use of the file system, of the standard library and of numpy and scipy.
pub record World (F : FloatOps) : Type 1 where
  pub ints : IntArrays
  pub np : FloatArrays F
  pub gen : Generator
  -- `float(text)`, of a cell and of a part of a statistic's name
  pub cell_float : Text → Result F.Float
  pub float_of : String → Result F.Float
  -- `f"{q:g}"`, the other formats of floats, and `repr` of a name
  pub format_g : F.Float → Text
  pub formats : Formats F
  pub general : ℕ → F.Float → Text
  pub quoted : Text → Text
  -- The literal 1e-300.
  pub tiny : F.Float
  pub dumps : Json F → Result Text
  pub is_dir : Text → Bool
  -- The CSV files of a directory, as csv.DictReader yields them.
  pub files : Text → List (Text × Table)
  pub make_directory : Text → Result (Unit {0})
  pub write : Text → Text → Result (Unit {0})

module _ (F : FloatOps) where
  pub record SummaryArgs : Type 0 where
    pub results_dir : Text
    pub baseline : Option Text
    pub json : Option Text
    pub markdown : Option Text
    pub n_boot : ℤ
    pub ci : F.Float
    pub seed : ℤ

  pub record PlotArgs : Type 0 where
    pub results_dir : Text
    pub out : Text

  pub record CompareArgs : Type 0 where
    pub results_dir : Text
    pub baseline : Text
    pub against : Text
    pub stat : String
    pub metric : MetricName
    pub n_boot : ℤ
    pub ci : F.Float
    pub seed : ℤ

  pub data Command : Type 0 where
    summary_command : SummaryArgs → Command
    plot_command : PlotArgs → Command
    compare_command : CompareArgs → Command

  abbrev pub directory_of : Command → Text
  directory_of (summary_command args) = args.results_dir
  directory_of (plot_command args) = args.results_dir
  directory_of (compare_command args) = args.results_dir

  module _ (w : World F) where
    abbrev pub options_of : SummaryArgs → Options F
    options_of args = record {
      results_dir = args.results_dir;
      percentile_method = "linear";
      n_boot = args.n_boot;
      ci = args.ci;
      seed = args.seed;
    }

    abbrev pub is_none : Option Text → Bool
    is_none none = true
    is_none (some t) = false

    -- The JSON, if it is asked for.
    unfoldable pub emit_json : SummaryArgs → Report F → Option Text → Action (Unit {0})
    unfolding emit
    emit_json args s none = returns tt
    emit_json args s (some target) = do
      content ← quietly (to_json F w.dumps (options_of args) s)
      emit w.write content (some target) false

    -- What is built from the arguments of `cmd_summary`.
    abbrev pub built : SummaryArgs → Result (Option (Report F))
    built args =
        build_summary F w.ints w.np w.format_g w.float_of w.gen "linear" args.ci args.n_boot
          args.seed w.cell_float (w.files args.results_dir) args.baseline

    unfoldable pub cmd_summary : SummaryArgs → Action ℕ
    unfolding emit emit_json
    cmd_summary args = do
      s ← quiet (built args)
      markdown ← quietly (render_markdown F w.formats w.tiny (options_of args) s)
      emitted ← emit w.write markdown args.markdown (is_none args.json)
      done ← emit_json args s args.json
      returns 0

    abbrev pub print_paths : List Text → Action (Unit {0})
    print_paths [] = returns tt
    print_paths (p ∷ paths) = do done ← output (printed (chars "wrote " ++ p)); print_paths paths

    unfoldable pub cmd_plot : PlotArgs → Action ℕ
    cmd_plot args = do
      figures ← quietly (
          plot_all F w.np w.cell_float w.formats.fixed w.general w.make_directory
            (w.files args.results_dir) args.out)
      done ← print_paths figures.paths
      returns 0

    -- `f"{name:<20}"` and `f"{x:>12}"`
    abbrev pub pad_right : ℕ → Text → Text
    pad_right n t = t ++ replicate (n - length t) 32

    abbrev pub pad_left : ℕ → Text → Text
    pad_left n t = replicate (n - length t) 32 ++ t

    abbrev pub samples_of : MetricName → Cell F → List F.Float
    samples_of latency cell = latency_ms F cell
    samples_of jitter cell = jitter_us F cell

    abbrev pub metric_text : MetricName → Text
    metric_text latency = chars "latency"
    metric_text jitter = chars "jitter"

    abbrev pub unit_text : MetricName → Text
    unit_text latency = chars "ms"
    unit_text jitter = chars "us"

    abbrev pub heading : CompareArgs → Text
    heading args =
        metric_text args.metric
        ++ chars " "
        ++ chars args.stat
        ++ chars " ("
        ++ unit_text args.metric
        ++ chars "), "
        ++ w.formats.fixed 0 (F.times args.ci (F.of_int (pos 100)))
        ++ chars "% bootstrap CI"

    abbrev pub side_line : Text → BootstrapCi F → Text
    side_line name side =
        chars "  "
        ++ pad_right 20 name
        ++ pad_left 12 (w.formats.fixed 3 side.point)
        ++ chars "  ["
        ++ w.formats.fixed 3 side.low
        ++ chars ", "
        ++ w.formats.fixed 3 side.high
        ++ chars "]"

    abbrev pub improvement_line : Comparison F → Text
    improvement_line r =
        chars "  improvement "
        ++ w.formats.signed 1 r.improvement_pct
        ++ chars "%  p-value "
        ++ w.formats.exponent 2 r.p_value
        ++ chars "  delta "
        ++ w.formats.signed 3 r.cliffs_delta
        ++ chars " ("
        ++ effect_text r.effect
        ++ chars ")"

    -- The first of the names that is not a condition.
    abbrev pub missing_name : List Text → List Text → Option Text
    missing_name [] conditions = none
    missing_name (name ∷ names) conditions =
        if contains name conditions then missing_name names conditions else some name

    abbrev pub not_found : Text → List Text → Text
    not_found name conditions =
        chars "error: condition "
        ++ w.quoted name
        ++ chars " not found; available: ["
        ++ join (chars ", ") (map w.quoted conditions)
        ++ chars "]"

    abbrev pub cell_named : Option (Cell F) → Result (Cell F)
    cell_named none = err key_error
    cell_named (some cell) = ok cell

    -- From the check of the names on.
    abbrev pub compare_named : CompareArgs → List (Text × Cell F) → Option Text → Action ℕ
    compare_named args cells (some name) = do
      done ← output (printed_error (not_found name (names_of cells)))
      returns 2
    compare_named args cells none = do
      base ← quietly (cell_named (lookup args.baseline cells))
      other ← quietly (cell_named (lookup args.against cells))
      r ← quiet (
          compare F w.np w.float_of w.gen (samples_of args.metric base)
            (samples_of args.metric other) args.stat args.n_boot args.ci args.seed "linear")
      first ← output (printed (heading args))
      baseline ← output (printed (side_line args.baseline r.baseline))
      against ← output (printed (side_line args.against r.proposed))
      last ← output (printed (improvement_line r))
      returns 0

    unfoldable pub cmd_compare : CompareArgs → Action ℕ
    cmd_compare args = do
      cells ← quietly (build_dataset F w.cell_float (w.files args.results_dir))
      compare_named args cells (missing_name (args.baseline ∷ args.against ∷ []) (names_of cells))

    abbrev pub handler : Command → Action ℕ
    handler (summary_command args) = cmd_summary args
    handler (plot_command args) = cmd_plot args
    handler (compare_command args) = cmd_compare args

    -- `except ValueError`
    abbrev pub caught : List Output → Result (Option ℕ) → Action ℕ
    caught outs (ok code) = record { outputs = outs; result = ok code }
    caught outs (err x) = elim x [
      | value_error ↦ record { outputs = outs ++ complaint value_error ∷ []; result = ok (some 2) }
      | other ↦ record { outputs = outs; result = err other }
    ]

    unfoldable pub main : Command → Action ℕ
    unfolding cmd_summary cmd_plot cmd_compare
    main command =
        if not (w.is_dir (directory_of command))
        then (do
          done ←
              output (
                printed_error
                  (chars "error: results directory not found: " ++ directory_of command))
          returns 2)
        else caught (handler command).outputs (handler command).result
