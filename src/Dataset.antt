-- ===== src/Dataset.antt =====
-- analysis/tsn_analysis/dataset.py: the runs grouped per condition, the testbed's conditions first.
-- Names compare by code point, as Python's `str` does.
pub mod Order
use time_sensitive_packet.Base.{
  ℕ, zero, suc, ◌+◌, Bool, true, false, ◌&&◌, ◌||◌, Option, none, some, List, [], ◌∷◌, ◌++◌, map,
  length, ltb, ◌==◌, if◌then◌else◌, Result, ok, err, ◌>>=◌, Text, chars, text_eq, contains, lookup,
}
use time_sensitive_packet.Floats.{FloatOps}
use time_sensitive_packet.Metrics.Distribution.{jitter_values}
use time_sensitive_packet.Loader.{Table, Run, discover}

abbrev pub condition_order : List Text
condition_order =
    chars "fifo"
    ∷ chars "fq_codel"
    ∷ chars "pfifo_fast_noclsf"
    ∷ chars "pfifo_fast_clsf"
    ∷ chars "prio_clsf"
    ∷ []

-- `a < b` of two texts.
abbrev pub text_lt : Text → Text → Bool
text_lt [] [] = false
text_lt [] (d ∷ t) = true
text_lt (c ∷ s) [] = false
text_lt (c ∷ s) (d ∷ t) = ltb c d || ((c == d) && text_lt s t)

-- `names.index(c)` of a name that is there, and else the length.
abbrev pub index_in : List Text → Text → ℕ
index_in [] c = 0
index_in (name ∷ names) c = if text_eq.beq c name then 0 else suc (index_in names c)

-- `_order`
abbrev pub order : Text → ℕ × Text
order condition =
    if contains condition condition_order
    then (index_in condition_order condition, [])
    else (length condition_order, condition)

-- `a < b` of two pairs.
abbrev pub key_lt : ℕ × Text → ℕ × Text → Bool
key_lt (i, s) (j, t) = ltb i j || ((i == j) && text_lt s t)

abbrev pub insert_name : Text → List Text → List Text
insert_name c [] = c ∷ []
insert_name c (d ∷ names) =
    if key_lt (order d) (order c) then d ∷ insert_name c names else c ∷ d ∷ names

-- `sorted(names, key=_order)`
unfoldable pub sort_names : List Text → List Text
sort_names [] = []
sort_names (c ∷ names) = insert_name c (sort_names names)

module _ (F : FloatOps) where
  pub record Cell : Type 0 where
    pub condition : Text
    pub runs : List (Run F)

  abbrev pub concat : List (List F.Float) → List F.Float
  concat [] = []
  concat (xs ∷ xss) = xs ++ concat xss

  -- A cell that the loader makes has a run; without one `np.concatenate` would raise, which is not
  -- modelled.
  abbrev pub latency_ms : Cell → List F.Float
  latency_ms cell = concat (map (λ r. r.latency_ms) cell.runs)

  abbrev pub jitter_us : Cell → List F.Float
  jitter_us cell = concat (map (λ r. jitter_values F r.jitter_us) cell.runs)

  abbrev pub n_runs : Cell → ℕ
  n_runs cell = length cell.runs

  abbrev pub group_names : List (Text × List (Run F)) → List Text
  group_names [] = []
  group_names ((c, runs) ∷ groups) = c ∷ group_names groups

  abbrev pub found : Option (List (Run F)) → List (Run F)
  found none = []
  found (some runs) = runs

  -- `groups[c]` of a condition that is there.
  abbrev pub runs_in : List (Text × List (Run F)) → Text → List (Run F)
  runs_in groups c = found (lookup c groups)

  -- `{c: Cell(c, groups[c]) for c in names}`
  abbrev pub cells_of : List (Text × List (Run F)) → List Text → List (Text × Cell)
  cells_of groups [] = []
  cells_of groups (c ∷ names) =
      (c, record { condition = c; runs = runs_in groups c }) ∷ cells_of groups names

  unfoldable pub cells : List (Text × List (Run F)) → List (Text × Cell)
  unfolding sort_names
  cells groups = cells_of groups (sort_names (group_names groups))

  module _ (float_of : Text → Result F.Float) where
    unfoldable pub build_dataset : List (Text × Table) → Result (List (Text × Cell))
    unfolding cells
    build_dataset files = do groups ← discover F float_of files; ok (cells groups)
