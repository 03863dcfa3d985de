-- ===== src/Cli/Summary.antt =====
-- What the command `summary` of cli.py writes.
use time_sensitive_packet.Base.{
  ◌≡◌, refl, ap, inl, inr, Bool, true, false, Option, none, some, List, [], ◌∷◌, ◌++◌,
  if◌then◌else◌, AllOf, Result, ok, Gives, Text, chars, text_eq, join, Bool-cases,
}
use time_sensitive_packet.Floats.{FloatOps}
use time_sensitive_packet.Stats.Bootstrap.Resamples.{GeneratorLaws}
use time_sensitive_packet.Dataset.{Cell, build_dataset}
use time_sensitive_packet.Report.{Summary as Report, names_of, choose_baseline, build_summary}
use time_sensitive_packet.Report.Json.{Json, sanitize_json}
use time_sensitive_packet.Report.Json.Strict.{IsStrict, sanitize_json-IsStrict}
use time_sensitive_packet.Report.Dict.{summary_value, to_json}
use time_sensitive_packet.Report.Totals.{Accepted, IsFull}
use time_sensitive_packet.Report.Markdown.{render_markdown}
use time_sensitive_packet.Report.Markdown.Plain.{FormatsLaws}
use time_sensitive_packet.Report.Markdown.Render.{IsRendered}
use time_sensitive_packet.Report.Markdown.Built.{LabelLaws, NamesPlain, summarize-renders}
use time_sensitive_packet.Cli.{
  Output, printed, written, Action, write_file, emit, World, SummaryArgs, summary_command, is_none,
  options_of, emit_json, built, cmd_summary, caught, main,
}
use mathlib.Core.List.{append-nil}

-- `json.dumps` returns for a value without nan and infinity.
pub record DumpsLaws {F : FloatOps} (dumps : Json F → Result Text) : Type 0 where
  pub dumps-Gives : (v : Json F) → IsStrict F v → Gives (λ t. Unit {0}) (dumps v)

-- A text on its way to a target: a file, or stdout for "-", and without a target stdout too, if
-- that is the default.
abbrev pub shown : Bool → Text → Option Text → List Output
shown true text none = printed text ∷ []
shown false text none = []
shown default text (some target) =
    if text_eq.beq target (chars "-")
    then printed text ∷ []
    else written target text ∷ printed (chars "wrote " ++ target) ∷ []

abbrev done_with {ℓ} : {A : Type ℓ} → List Output → A → Action A
done_with outs a = record { outputs = outs; result = ok (some a) }

emit-shown :
    (write : Text → Text → Result (Unit {0})) (text : Text) (target : Option Text) (default : Bool)
    → ((path content : Text) → write path content ≡ ok tt)
    → emit write text target default ≡ done_with (shown default text target) tt
unfolding emit
emit-shown write text none true writes = refl
emit-shown write text none false writes = refl
emit-shown write text (some target) default writes =
    elim (Bool-cases (text_eq.beq target (chars "-"))) [
      | inl e ↦ rw (emit, shown, e) refl
      | inr e ↦ rw (emit, shown, e, write_file, writes target text) refl
    ]

module _ (F : FloatOps) (w : World F) (formats_laws : FormatsLaws w.formats)
    (labels : LabelLaws F w.format_g) (generator_laws : GeneratorLaws w.gen)
    (dumps_laws : DumpsLaws w.dumps) (args : SummaryArgs F)
    (accepted : Accepted F w.np w.float_of w.gen generator_laws "linear" args.ci args.seed)
    (writes : (path content : Text) → w.write path content ≡ ok tt) where
  emit_json-shown :
      (s : Report F) (json : Text) (target : Option Text)
      → to_json F w.dumps (options_of F w args) s ≡ ok json
      → emit_json F w args s target ≡ done_with (shown false json target) tt
  unfolding emit_json
  emit_json-shown s json none e = refl
  emit_json-shown s json (some target) e = rw e (emit-shown w.write json (some target) false writes)

  -- What is written, the Markdown first.
  abbrev pub both_shown : Text → Text → List Output
  both_shown markdown json =
      shown (is_none F w args.json) markdown args.markdown ++ shown false json args.json

  cmd_summary-shown :
      (s : Report F) (markdown json : Text)
      → built F w args ≡ ok (some s)
      → render_markdown F w.formats w.tiny (options_of F w args) s ≡ ok markdown
      → to_json F w.dumps (options_of F w args) s ≡ ok json
      → cmd_summary F w args ≡ done_with (both_shown markdown json) 0
  unfolding cmd_summary
  cmd_summary-shown s markdown json b r j =
      rw
        (
          b,
          r,
          emit-shown w.write markdown args.markdown (is_none F w args.json) writes,
          emit_json-shown s json args.json j,
        )
        (ap (λ outs. done_with (shown (is_none F w args.json) markdown args.markdown ++ outs) 0)
          (append-nil (shown false json args.json)))

  -- The command `summary`, for a directory that is there, files that load and of which each has two
  -- packets or more, a baseline that can be chosen, and a seed and a confidence level that numpy
  -- takes, if the names have no bar and files can be written: it ends with code 0. It writes the Markdown of the summary to its target, or to stdout
  -- if neither target is given, and then the JSON of the sanitized summary to its target, if there is
  -- one, and nothing else. A reader of the Markdown's lines finds the tables of the report.
  pub main-summary :
      (cells : List (Text × Cell F)) (base : Text)
      → w.is_dir args.results_dir ≡ true
      → build_dataset F w.cell_float (w.files args.results_dir) ≡ ok cells
      → AllOf (λ c. IsFull F c.1) cells
      → choose_baseline (names_of cells) args.baseline ≡ ok base
      → NamesPlain F w.formats formats_laws w.np w.format_g labels cells
      → (s : Report F) × (lines : List Text) × (json : Text) × (built F w args ≡ ok (some s))
        × (w.dumps (sanitize_json F (summary_value F (options_of F w args) s)) ≡ ok json)
        × IsRendered F w.formats formats_laws s lines
        × (main F w (summary_command args)
            ≡ record { outputs = both_shown (join (10 ∷ []) lines) json; result = ok (some 0) })
  unfolding main build_summary to_json
  main-summary cells base there loads full chosen plain =
      let (s, lines, made, text, rendered) =
        summarize-renders F w.formats formats_laws w.np w.format_g labels w.ints w.float_of w.gen
          generator_laws "linear" args.ci args.n_boot args.seed accepted cells args.baseline base
          w.tiny (options_of F w args) full chosen plain in
      let value = summary_value F (options_of F w args) s in
      let (json, dumped, t) =
        dumps_laws.dumps-Gives (sanitize_json F value) (sanitize_json-IsStrict F value).0 in
      let b : built F w args ≡ ok (some s) = rw loads made in
      (
        s,
        lines,
        json,
        b,
        dumped,
        rendered,
        rw there (
            ap (λ a. caught F w a.outputs a.result)
              (cmd_summary-shown s (join (10 ∷ []) lines) json b text dumped)),
      )
