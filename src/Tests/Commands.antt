-- ===== src/Tests/Commands.antt =====
-- The command `summary` for a directory with one file, and commands that fail.
use time_sensitive_packet.Base.{
  ◌≡◌, refl, none, some, true, List, [], ◌∷◌, ok, Text, chars, text_eq, join,
}
use time_sensitive_packet.Base.Int.{pos, negsuc}
use time_sensitive_packet.Floats.Plain.{number}
use time_sensitive_packet.Numpy.Plain.{plain_arrays}
use time_sensitive_packet.Numpy.Samples.Sorting.{sorting_arrays}
use time_sensitive_packet.Loader.{
  Run, Table, parse_name, match_suffix, to_int, load_csv, add_row, add_rows, run_of, ints,
  tos_column, discover,
}
use time_sensitive_packet.Dataset.{Cell, build_dataset, cells, sort_names}
use time_sensitive_packet.Report.{Summary as Report, choose_baseline, names_of}
use time_sensitive_packet.Report.Json.{sanitize_json}
use time_sensitive_packet.Report.Dict.{summary_value}
use time_sensitive_packet.Report.Markdown.Render.{IsRendered}
use time_sensitive_packet.Cli.{World, SummaryArgs, summary_command, options_of, built, main}
use time_sensitive_packet.Cli.Exits.{Exits, main-Exits}
use time_sensitive_packet.Cli.Summary.{DumpsLaws, both_shown, main-summary}
use time_sensitive_packet.Tests.Statistics.{float_of, first_always, first_always_laws}
use time_sensitive_packet.Tests.Rendering.{F, format_g, labels, formats, formats_laws, accepted}
use time_sensitive_packet.Tests.Tables.{table}

abbrev files : Text → List (Text × Table)
files directory = (chars "fifo_run1", table) ∷ []

abbrev world : World F
world = record {
  ints = plain_arrays;
  np = sorting_arrays F;
  gen = first_always;
  cell_float = λ s. ok (number (pos 5));
  float_of = float_of;
  format_g = format_g;
  formats = formats;
  general = λ digits x. chars "1";
  quoted = λ s. s;
  tiny = number (pos 0);
  dumps = λ v. ok (chars "{}");
  is_dir = λ path. true;
  files = files;
  make_directory = λ path. ok tt;
  write = λ path content. ok tt;
}

dumps_laws : DumpsLaws {F = F} (λ v. ok (chars "{}"))
dumps_laws = record { dumps-Gives = λ v h. (chars "{}", refl, tt) }

abbrev args : SummaryArgs F
args = record {
  results_dir = chars "results";
  baseline = none;
  json = some (chars "out.json");
  markdown = none;
  n_boot = pos 5;
  ci = number (pos 9);
  seed = pos 0;
}

abbrev run : Run F
run = record {
  name = chars "fifo_run1";
  condition = chars "fifo";
  run_index = some 1;
  seq = pos 0 ∷ pos 2 ∷ [];
  send_ns = pos 100 ∷ pos 100 ∷ [];
  recv_ns = pos 200 ∷ pos 200 ∷ [];
  latency_ms = number (pos 5) ∷ number (pos 5) ∷ [];
  jitter_us = number (pos 5) ∷ number (pos 5) ∷ [];
  pkt_size = pos 128 ∷ pos 128 ∷ [];
  tos = some (pos 184 ∷ negsuc 0 ∷ []);
}

abbrev loaded : List (Text × Cell F)
loaded = (chars "fifo", record { condition = chars "fifo"; runs = run ∷ [] }) ∷ []

loads : build_dataset F world.cell_float (files (chars "results")) ≡ ok loaded
unfolding build_dataset discover cells sort_names load_csv add_rows add_row run_of ints to_int
    tos_column parse_name match_suffix
loads = refl

chosen : choose_baseline (names_of loaded) none ≡ ok (chars "fifo")
unfolding choose_baseline
chosen = refl

main-summary_example :
    (s : Report F) × (lines : List Text) × (json : Text) × (built F world args ≡ ok (some s))
    × (world.dumps (sanitize_json F (summary_value F (options_of F world args) s)) ≡ ok json)
    × IsRendered F formats formats_laws s lines
    × (main F world (summary_command args) ≡ record {
      outputs =
          both_shown F world formats_laws labels first_always_laws dumps_laws args accepted
            (λ path content. refl)
            (join (10 ∷ []) lines)
            json;
      result = ok (some 0);
    })
main-summary_example =
    main-summary F world formats_laws labels first_always_laws dumps_laws args accepted
      (λ path content. refl) loaded (chars "fifo") refl loads
      ((((λ h. cc), (((λ h. cc), (λ h. cc)), tt))), tt) chosen ((refl, refl), tt)

main-Exits_example :
    Exits (main F world (summary_command args)).outputs (main F world (summary_command args)).result
main-Exits_example = main-Exits F world (summary_command args)
