-- ===== src/Loader.antt =====
-- analysis/tsn_analysis/loader.py: reading the receiver's CSVs. What `csv.DictReader` yields is the
-- input: the header, and for each row its dict, in which the cells that a short row lacks are None.
-- `float(text)` is a parameter. A directory is given as the tables of its `*.csv`, by file stem, in
-- the order of the sorted paths.
pub mod Names
pub mod Numbers
pub mod Columns
pub mod Groups
use time_sensitive_packet.Base.{
  ℕ, zero, suc, ◌+◌, ◌^◌, Bool, true, false, ◌&&◌, ◌||◌, not, Option, none, some, List, [], ◌∷◌,
  ◌++◌, map, length, ltb, leb, ◌==◌, if◌then◌else◌, Result, ok, err, Exception, value_error,
  overflow_error, key_error, raise_if, map_result, ◌>>=◌, ◌>>◌, Text, chars, isdigit, digits_from,
  lstrip_by, strip, text_eq, contains, lookup, insert,
}
use time_sensitive_packet.Base.Int.{ℤ, pos, negsuc, sub_ℕ, pos_part, neg_part, leb_ℤ}
use time_sensitive_packet.Floats.{FloatOps}

-- `_run` and then only digits: the number they make.
abbrev pub run_number : Text → Option ℕ
run_number (a ∷ b ∷ c ∷ d ∷ s) =
    if (a == 95) && (b == 114) && (c == 117) && (d == 110) && isdigit s
    then some (digits_from 0 s)
    else none
run_number _ = none

-- A condition that begins with `c`: it ends where the run number is, or goes on.
abbrev pub condition_from : ℕ → Text → Option ℕ → Option (Text × ℕ) → Option (Text × ℕ)
condition_from c s (some k) later = some (c ∷ [], k)
condition_from c s none none = none
condition_from c s none (some (condition, k)) = some (c ∷ condition, k)

-- `^(.+?)_run(\d+)$`: the shortest condition with a character. (For names without a newline.)
unfoldable pub match_suffix : Text → Option (Text × ℕ)
match_suffix [] = none
match_suffix (c ∷ s) = condition_from c s (run_number s) (match_suffix s)

unfoldable pub parse_name : Text → Text × Option ℕ
unfolding match_suffix
parse_name stem = elim (match_suffix stem) [
  | none ↦ (stem, none)
  | some (condition, k) ↦ (condition, some k)
]

abbrev pub required_columns : List Text
required_columns =
    chars "seq"
    ∷ chars "send_ns"
    ∷ chars "recv_ns"
    ∷ chars "latency_ms"
    ∷ chars "jitter_us"
    ∷ chars "pkt_size"
    ∷ []

pub record Table : Type 0 where
  pub header : List Text
  pub rows : List (List (Text × Option Text))

-- `int(v)` of a text whose end, after any signs, is made of digits.
abbrev pub int_of : Text → Result ℤ
int_of [] = err value_error
int_of (c ∷ s) =
    if isdigit (c ∷ s)
    then ok (pos (digits_from 0 (c ∷ s)))
    else (if (c == 45) && isdigit s
        then ok (sub_ℕ 0 (digits_from 0 s))
        else (if (c == 43) && isdigit s then ok (pos (digits_from 0 s)) else err value_error))

abbrev pub is_sign : ℕ → Bool
is_sign c = (c == 43) || (c == 45)

-- Whether `np.int64` holds it.
abbrev pub fits_int64 : ℤ → Bool
fits_int64 n = ltb (pos_part n) (2 ^ 63) && leb (neg_part n) (2 ^ 63)

-- `np.asarray(values, dtype=np.int64)`
abbrev pub int64_array : List ℤ → Result (List ℤ)
int64_array [] = ok []
int64_array (x ∷ xs) = do
  raise_if (not (fits_int64 x)) overflow_error
  rest ← int64_array xs
  ok (x ∷ rest)

-- `row[c] if row[c] is not None else ""`
abbrev pub cell_text : Option Text → Text
cell_text none = []
cell_text (some cell) = cell

-- `columns[c].append(...)` for the cells of one row, in the order of the header.
unfoldable pub add_row :
    List Text
    → List (Text × Option Text)
    → List (Text × List Text)
    → Result (List (Text × List Text))
add_row [] row columns = ok columns
add_row (c ∷ header) row columns = elim (lookup c columns) [
  | none ↦ err key_error
  | some cells ↦ elim (lookup c row) [
    | none ↦ err key_error
    | some cell ↦ add_row header row (insert c (cells ++ cell_text cell ∷ []) columns)
  ]
]

unfoldable pub add_rows :
    List Text
    → List (List (Text × Option Text))
    → List (Text × List Text)
    → Result (List (Text × List Text))
unfolding add_row
add_rows header [] columns = ok columns
add_rows header (row ∷ rows) columns = do
  columns' ← add_row header row columns
  add_rows header rows columns'

-- `{c: [] for c in header}`
abbrev pub no_cells : List Text → List (Text × List Text) → List (Text × List Text)
no_cells [] columns = columns
no_cells (c ∷ header) columns = no_cells header (insert c [] columns)

abbrev pub cells_of : Option (List Text) → Result (List Text)
cells_of none = err key_error
cells_of (some cells) = ok cells

-- `columns[c]`
abbrev pub column : Text → List (Text × List Text) → Result (List Text)
column c columns = cells_of (lookup c columns)

-- `[c for c in REQUIRED_COLUMNS if c not in header]` is not empty.
abbrev pub lacks : List Text → List Text → Bool
lacks [] header = false
lacks (c ∷ required) header = not (contains c header) || lacks required header

module _ (F : FloatOps) where
  pub record Run : Type 0 where
    pub name : Text
    pub condition : Text
    pub run_index : Option ℕ
    pub seq : List ℤ
    pub send_ns : List ℤ
    pub recv_ns : List ℤ
    pub latency_ms : List F.Float
    pub jitter_us : List F.Float
    pub pkt_size : List ℤ
    pub tos : Option (List ℤ)

  -- `int(x)` of a float.
  abbrev pub int_of_float : F.Float → Result ℤ
  int_of_float x =
      if F.is_nan x
      then err value_error
      else (if F.is_inf x then err overflow_error else ok (F.truncate x))

  module _ (float_of : Text → Result F.Float) where
    unfoldable pub to_int : Text → Result ℤ
    to_int value =
        let v = strip value in
        if isdigit (lstrip_by is_sign v) then int_of v else (do x ← float_of v; int_of_float x)

    unfoldable pub ints : List Text → Result (List ℤ)
    unfolding to_int
    ints values = do ns ← map_result to_int values; int64_array ns

    -- A cell of the column `tos`.
    abbrev pub tos_of : Text → Result ℤ
    tos_of v = elim (strip v) [ [] ↦ ok (negsuc 0) | _ ∷ _ ↦ to_int v ]

    unfoldable pub tos_column : Option (List Text) → Result (Option (List ℤ))
    unfolding to_int
    tos_column none = ok none
    tos_column (some cells) = do ns ← map_result tos_of cells; tos ← int64_array ns; ok (some tos)

    -- The run, once the table is read.
    unfoldable pub run_of : Text → List (Text × List Text) → Result Run
    unfolding ints tos_column
    run_of stem columns = do
      tos ← tos_column (lookup (chars "tos") columns)
      let (condition, run_index) = parse_name stem
      seq_cells ← column (chars "seq") columns
      seq ← ints seq_cells
      send_cells ← column (chars "send_ns") columns
      send_ns ← ints send_cells
      recv_cells ← column (chars "recv_ns") columns
      recv_ns ← ints recv_cells
      latency_cells ← column (chars "latency_ms") columns
      latency_ms ← map_result float_of latency_cells
      jitter_cells ← column (chars "jitter_us") columns
      jitter_us ← map_result float_of jitter_cells
      size_cells ← column (chars "pkt_size") columns
      pkt_size ← ints size_cells
      ok (record {
        name = stem;
        condition = condition;
        run_index = run_index;
        seq = seq;
        send_ns = send_ns;
        recv_ns = recv_ns;
        latency_ms = latency_ms;
        jitter_us = jitter_us;
        pkt_size = pkt_size;
        tos = tos;
      })

    abbrev pub no_rows : List Text → Bool
    no_rows [] = true
    no_rows (cell ∷ cells) = false

    unfoldable pub load_csv : Text → Table → Result Run
    unfolding add_rows run_of
    load_csv stem table = do
      raise_if (lacks required_columns table.header) value_error
      columns ← add_rows table.header table.rows (no_cells table.header [])
      seq ← column (chars "seq") columns
      raise_if (no_rows seq) value_error
      run_of stem columns

    -- `groups.setdefault(condition, [])`, by what is there.
    abbrev pub listed : Option (List Run) → List Run
    listed none = []
    listed (some runs) = runs

    -- `groups.setdefault(condition, []).append(run)`
    abbrev pub group : Run → List (Text × List Run) → List (Text × List Run)
    group run groups =
        insert run.condition (listed (lookup run.condition groups) ++ run ∷ []) groups

    unfoldable pub group_all :
        List (Text × Table) → List (Text × List Run) → Result (List (Text × List Run))
    unfolding load_csv
    group_all [] groups = ok groups
    group_all ((stem, table) ∷ files) groups = do
      run ← load_csv stem table
      group_all files (group run groups)

    -- The key is -1 for a run without an index: one more here, as a natural number.
    abbrev pub index_key : Run → ℕ
    index_key run = elim run.run_index [ none ↦ 0 | some k ↦ suc k ]

    abbrev pub insert_run : Run → List Run → List Run
    insert_run r [] = r ∷ []
    insert_run r (s ∷ runs) =
        if ltb (index_key s) (index_key r) then s ∷ insert_run r runs else r ∷ s ∷ runs

    -- `runs.sort(key=...)`, which is stable.
    abbrev pub sort_runs : List Run → List Run
    sort_runs [] = []
    sort_runs (r ∷ runs) = insert_run r (sort_runs runs)

    abbrev pub sort_groups : List (Text × List Run) → List (Text × List Run)
    sort_groups [] = []
    sort_groups ((c, runs) ∷ groups) = (c, sort_runs runs) ∷ sort_groups groups

    unfoldable pub discover : List (Text × Table) → Result (List (Text × List Run))
    unfolding group_all
    discover files = do groups ← group_all files []; ok (sort_groups groups)
