-- ===== src/Cli/Exits.antt =====
-- How `main` of cli.py ends.
use time_sensitive_packet.Base.{
  ℕ, ◌≡◌, ◌≢◌, ◌⊎◌, refl, ap, ◌∙◌, sym, inl, inr, Bool, true, false, not, Option, none, some, List,
  [], ◌∷◌, ◌++◌, all, value_error, Result, ok, err, Result-cases, Text, chars, text_eq, lookup,
  Bool-cases, arith,
}
use time_sensitive_packet.Floats.{FloatOps}
use time_sensitive_packet.Dataset.{Cell, build_dataset}
use time_sensitive_packet.Report.{Summary as Report, names_of}
use time_sensitive_packet.Cli.{
  Output, printed, printed_error, complaint, written, Action, returns, output, quiet, quietly,
  continue, ◌>>=◌, write_file, emit, World, SummaryArgs, PlotArgs, CompareArgs, Command,
  summary_command, plot_command, compare_command, directory_of, is_none, emit_json, cmd_summary,
  print_paths, cmd_plot, options_of, built, samples_of, missing_name, cell_named, compare_named,
  cmd_compare, handler, caught, main,
}
use time_sensitive_packet.Report.Dict.{to_json}
use time_sensitive_packet.Report.Markdown.{render_markdown}
use time_sensitive_packet.Plots.{plot_all}
use time_sensitive_packet.Stats.Compare.{compare}
use mathlib.Core.List.{append_assoc}

-- What goes to stderr.
abbrev pub is_error_line : Output → Bool
is_error_line (printed t) = false
is_error_line (printed_error t) = true
is_error_line (complaint x) = true
is_error_line (written p t) = false

abbrev pub NoErrors : List Output → Type 0
NoErrors outs = all (λ o. not (is_error_line o)) outs ≡ true

-- One line on stderr, the last output.
abbrev pub OneError : List Output → Type 0
OneError outs =
    (before : List Output) × (line : Output) × (outs ≡ before ++ line ∷ [])
    × (is_error_line line ≡ true)
    × NoErrors before

abbrev pub EndsWith : List Output → ℕ → Type 0
EndsWith outs code = ((code ≡ 0) × NoErrors outs) ⊎ ((code ≡ 2) × OneError outs)

-- Exit codes 0 and 2, or an exception that is no ValueError.
abbrev pub Exits : List Output → Result (Option ℕ) → Type 0
Exits outs (err x) = (x ≢ value_error) × NoErrors outs
Exits outs (ok none) = NoErrors outs
Exits outs (ok (some code)) = EndsWith outs code

-- The same of a handler, which may raise anything.
abbrev HandlerExits : List Output → Result (Option ℕ) → Type 0
HandlerExits outs (err x) = NoErrors outs
HandlerExits outs (ok none) = NoErrors outs
HandlerExits outs (ok (some code)) = EndsWith outs code

NoErrors-append : (xs ys : List Output) → NoErrors xs → NoErrors ys → NoErrors (xs ++ ys)
NoErrors-append [] ys h g = g
NoErrors-append (x ∷ xs) ys h g = ground (arith, NoErrors-append xs ys)

EndsWith-append :
    (outs more : List Output) (code : ℕ)
    → NoErrors outs
    → EndsWith more code
    → EndsWith (outs ++ more) code
EndsWith-append outs more code h (inl (e, g)) = inl (e, NoErrors-append outs more h g)
EndsWith-append outs more code h (inr (e, (before, line, split, is_line, g))) = inr (
  e,
  (
    outs ++ before,
    line,
    ap (λ os. outs ++ os) split ∙ sym (append_assoc outs before (line ∷ [])),
    is_line,
    NoErrors-append outs before h g,
  ),
)

HandlerExits-append :
    (outs more : List Output) (r : Result (Option ℕ))
    → NoErrors outs
    → HandlerExits more r
    → HandlerExits (outs ++ more) r
HandlerExits-append outs more (err x) h g = NoErrors-append outs more h g
HandlerExits-append outs more (ok none) h g = NoErrors-append outs more h g
HandlerExits-append outs more (ok (some code)) h g = EndsWith-append outs more code h g

record Ends (action : Action ℕ) : Type 0 where
  ends : HandlerExits action.outputs action.result

record IsClean {ℓ} {A : Type ℓ} (action : Action A) : Type 0 where
  clean : NoErrors action.outputs

Ends-bind {ℓ} :
    {A : Type ℓ} (action : Action A) (next : A → Action ℕ)
    → IsClean action
    → ((a : A) → Ends (next a))
    → Ends (action >>= next)
Ends-bind {A = A} action next h g = record { ends = by_result action.outputs action.result h.clean }
  where
    by_result :
        (outs : List Output) (r : Result (Option A))
        → NoErrors outs
        → HandlerExits (continue outs r next).outputs (continue outs r next).result
    by_result outs (err x) h = h
    by_result outs (ok none) h = h
    by_result outs (ok (some a)) h =
        HandlerExits-append outs (next a).outputs (next a).result h (g a).ends

IsClean-bind {ℓ κ} :
    {A : Type ℓ} {B : Type κ} (action : Action A) (next : A → Action B)
    → IsClean action
    → ((a : A) → IsClean (next a))
    → IsClean (action >>= next)
IsClean-bind {A = A} action next h g = record {
  clean = by_result action.outputs action.result h.clean;
}
  where
    by_result :
        (outs : List Output) (r : Result (Option A))
        → NoErrors outs
        → NoErrors (continue outs r next).outputs
    by_result outs (err x) h = h
    by_result outs (ok none) h = h
    by_result outs (ok (some a)) h = NoErrors-append outs (next a).outputs h (g a).clean

quietly-IsClean {ℓ} : {A : Type ℓ} (r : Result A) → IsClean (quietly r)
quietly-IsClean (err x) = record { clean = refl }
quietly-IsClean (ok a) = record { clean = refl }

write_file-IsClean :
    (write : Text → Text → Result (Unit {0})) (path content : Text)
    → IsClean (write_file write path content)
write_file-IsClean write path content = elim (Result-cases (write path content)) [
  | inl (done, e) ↦ record { clean = rw (write_file, e) refl }
  | inr (x, e) ↦ record { clean = rw (write_file, e) refl }
]

emit-IsClean :
    (write : Text → Text → Result (Unit {0})) (text : Text) (target : Option Text) (default : Bool)
    → IsClean (emit write text target default)
unfolding emit
emit-IsClean write text none true = record { clean = refl }
emit-IsClean write text none false = record { clean = refl }
emit-IsClean write text (some target) default = elim (Bool-cases (text_eq.beq target (chars "-"))) [
  | inl e ↦ record { clean = rw (emit, e) refl }
  | inr e ↦
      rw (emit, e)
        (IsClean-bind (write_file write target text)
          (λ done. output (printed (chars "wrote " ++ target)))
          (write_file-IsClean write target text) (λ done. record { clean = refl }))
]

module _ (F : FloatOps) (w : World F) where
  emit_json-IsClean :
      (args : SummaryArgs F) (s : Report F) (target : Option Text)
      → IsClean (emit_json F w args s target)
  unfolding emit_json
  emit_json-IsClean args s none = record { clean = refl }
  emit_json-IsClean args s (some target) =
      IsClean-bind (quietly (to_json F w.dumps (options_of F w args) s))
        (λ content. emit w.write content (some target) false)
        (quietly-IsClean (to_json F w.dumps (options_of F w args) s))
        (λ content. emit-IsClean w.write content (some target) false)

  returns-Ends : Ends (returns 0)
  returns-Ends = record { ends = inl (refl, refl) }

  cmd_summary-Ends : (args : SummaryArgs F) → Ends (cmd_summary F w args)
  unfolding cmd_summary
  cmd_summary-Ends args =
      Ends-bind (quiet (built F w args)) _ (record { clean = refl })
        (λ s.
          let markdown = render_markdown F w.formats w.tiny (options_of F w args) s in
          Ends-bind (quietly markdown) _ (quietly-IsClean markdown) (λ text.
            Ends-bind (emit w.write text args.markdown (is_none F w args.json)) _
              (emit-IsClean w.write text args.markdown (is_none F w args.json))
              (λ emitted.
                Ends-bind (emit_json F w args s args.json) (λ done. returns 0)
                  (emit_json-IsClean args s args.json) (λ done. returns-Ends))))

  print_paths-IsClean : (paths : List Text) → IsClean (print_paths F w paths)
  print_paths-IsClean [] = record { clean = refl }
  print_paths-IsClean (p ∷ paths) = record { clean = (print_paths-IsClean paths).clean }

  cmd_plot-Ends : (args : PlotArgs F) → Ends (cmd_plot F w args)
  unfolding cmd_plot
  cmd_plot-Ends args =
      let figures =
        plot_all F w.np w.cell_float w.formats.fixed w.general w.make_directory
          (w.files args.results_dir) args.out in
      Ends-bind (quietly figures) _ (quietly-IsClean figures) (λ f.
        Ends-bind (print_paths F w f.paths) (λ done. returns 0) (print_paths-IsClean f.paths)
          (λ done. returns-Ends))

  compare_named-Ends :
      (args : CompareArgs F) (cells : List (Text × Cell F)) (missing : Option Text)
      → Ends (compare_named F w args cells missing)
  compare_named-Ends args cells (some name) = record {
    ends = inr (refl, ([], _, refl, refl, refl));
  }
  compare_named-Ends args cells none =
      Ends-bind (quietly (cell_named F w (lookup args.baseline cells))) _ (quietly-IsClean _)
        (λ base.
          Ends-bind (quietly (cell_named F w (lookup args.against cells))) _ (quietly-IsClean _)
            (λ other.
              Ends-bind
                (quiet (
                  compare F w.np w.float_of w.gen (samples_of F w args.metric base)
                    (samples_of F w args.metric other) args.stat args.n_boot args.ci args.seed
                    "linear"))
                (λ r. record { outputs = _; result = ok (some 0) }) (record { clean = refl })
                (λ r. record { ends = inl (refl, refl) })))

  cmd_compare-Ends : (args : CompareArgs F) → Ends (cmd_compare F w args)
  unfolding cmd_compare
  cmd_compare-Ends args =
      let cells = build_dataset F w.cell_float (w.files args.results_dir) in
      Ends-bind (quietly cells) _ (quietly-IsClean cells) (λ cells.
        compare_named-Ends args cells
          (missing_name F w (args.baseline ∷ args.against ∷ []) (names_of cells)))

  handler-Ends : (command : Command F) → Ends (handler F w command)
  handler-Ends (summary_command args) = cmd_summary-Ends args
  handler-Ends (plot_command args) = cmd_plot-Ends args
  handler-Ends (compare_command args) = cmd_compare-Ends args

  caught-Exits :
      (outs : List Output) (r : Result (Option ℕ))
      → HandlerExits outs r
      → Exits (caught F w outs r).outputs (caught F w outs r).result
  caught-Exits outs (ok none) h = h
  caught-Exits outs (ok (some code)) h = h
  caught-Exits outs (err value_error) h = inr (refl, (outs, complaint value_error, refl, refl, h))
  caught-Exits outs (err x) h = ((λ e. cc), h)

  -- Whatever the files hold: `main` does not end with a ValueError. If it returns 0, nothing went to
  -- stderr. If it returns 2, exactly one line went there, and nothing after it. There is no other
  -- exit code, and where it ends by another exception, nothing went to stderr before.
  pub main-Exits :
      (command : Command F) → Exits (main F w command).outputs (main F w command).result
  unfolding main
  main-Exits command = elim (Bool-cases (w.is_dir (directory_of F command))) [
    | inl e ↦
        rw (main, e)
          (caught-Exits (handler F w command).outputs (handler F w command).result
            (handler-Ends command).ends)
    | inr e ↦ rw (main, e) (inr (refl, ([], _, refl, refl, refl)))
  ]
