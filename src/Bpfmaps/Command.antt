-- ===== src/Bpfmaps/Command.antt =====
-- `main` of testbed/bpfmaps.py. The two calls of bpftool are parameters: `read` is the dump of a
-- pinned map, parsed, and `update` writes a value under a key of one.
use time_sensitive_packet.Base.{
  ℕ, Option, none, some, List, [], if◌then◌else◌, Result, ok, err, index_error, ◌>>=◌, Text, chars,
  text_eq, strip, get_elem?,
}
use time_sensitive_packet.Base.Int.{ℤ}
use time_sensitive_packet.Loader.{int_of}
use time_sensitive_packet.Bpfmaps.{set_ts_config}
use time_sensitive_packet.Bpfmaps.Dump.{Entry, dump_percpu, counters}

-- What is printed: the sums as a JSON object, nothing, or the usage.
pub data Printed : Type 0 where
  sums : List (Text × ℤ) → Printed
  nothing usage : Printed

-- `argv[i]`
abbrev pub argument : Option Text → Result Text
argument none = err index_error
argument (some a) = ok a

abbrev pub argument_at : List Text → ℕ → Result Text
argument_at argv i = argument (get_elem? argv i)

module _ (read : Text → Result (List Entry))
    (update : Text → List ℕ → List ℕ → Result (Unit {0})) where
  abbrev pub main_dump : List Text → Result (Printed × ℕ)
  main_dump argv = do
    pinned ← argument_at argv 2
    entries ← read pinned
    res ← dump_percpu entries []
    ok (sums res, 0)

  abbrev pub main_counters : List Text → Result (Printed × ℕ)
  main_counters argv = do
    pinned ← argument_at argv 2
    entries ← read pinned
    named ← counters entries
    ok (sums named, 0)

  abbrev pub main_config : List Text → Result (Printed × ℕ)
  main_config argv = do
    pinned ← argument_at argv 2
    priority_text ← argument_at argv 3
    dscp_text ← argument_at argv 4
    flags_text ← argument_at argv 5
    priority ← int_of (strip priority_text)
    dscp ← int_of (strip dscp_text)
    flags ← int_of (strip flags_text)
    item ← set_ts_config priority dscp flags
    done ← update pinned item.0 item.1
    ok (nothing, 0)

  abbrev pub dispatch : List Text → Text → Result (Printed × ℕ)
  dispatch argv cmd =
      if text_eq.beq cmd (chars "dump-percpu")
      then main_dump argv
      else (if text_eq.beq cmd (chars "counters")
          then main_counters argv
          else (if text_eq.beq cmd (chars "set-ts-config")
              then main_config argv
              else ok (usage, 2)))

  -- What is printed, and the exit code.
  unfoldable pub main : List Text → Result (Printed × ℕ)
  main argv = do cmd ← argument_at argv 1; dispatch argv cmd
