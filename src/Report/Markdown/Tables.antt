-- ===== src/Report/Markdown/Tables.antt =====
-- A reader of Markdown tables, for the tables of the report.
use time_sensitive_packet.Base.{
  AllOf, ◌≡◌, refl, ap, ◌∙◌, sym, false, ◌==◌, List, [], ◌∷◌, ◌++◌, map, if◌then◌else◌, Text, chars,
  contains, nat_eq, join, split_at, split_at-first, grow, contains-append, arith, Bool-cases, inl,
  inr,
}
use mathlib.Core.List.{append_assoc}
use time_sensitive_packet.Report.Markdown.{table_line, rule_line, table}

-- A space is dropped in front.
abbrev pub trim_front : Text → Text
trim_front [] = []
trim_front (c ∷ s) = if c == 32 then s else c ∷ s

-- A space is dropped at the end.
abbrev pub trim_back : Text → Text
trim_back [] = []
trim_back (c ∷ []) = if c == 32 then [] else c ∷ []
trim_back (c ∷ d ∷ s) = c ∷ trim_back (d ∷ s)

-- The parts in front of the last bar.
abbrev pub cells_in : List Text → List Text
cells_in [] = []
cells_in (t ∷ []) = []
cells_in (t ∷ u ∷ ts) = trim_back (trim_front t) ∷ cells_in (u ∷ ts)

-- The cells of the lines that begin with a bar.
abbrev pub read_rows : List Text → List (List Text)
read_rows [] = []
read_rows ([] ∷ lines) = read_rows lines
read_rows ((c ∷ s) ∷ lines) =
    if c == 124 then cells_in (split_at 124 s) ∷ read_rows lines else read_rows lines

abbrev pub IsPlain : Text → Type 0
IsPlain t = contains 124 t ≡ false

abbrev pub AllPlain : List Text → Type 0
AllPlain [] = Unit
AllPlain (t ∷ ts) = IsPlain t × AllPlain ts

trim_back-space : (s : Text) → trim_back (s ++ 32 ∷ []) ≡ s
trim_back-space [] = refl
trim_back-space (c ∷ []) = refl
trim_back-space (c ∷ d ∷ s) = ap (λ t. c ∷ t) (trim_back-space (d ∷ s))

cells_in-split_at :
    (t s : Text)
    → cells_in (t ∷ split_at 124 s) ≡ trim_back (trim_front t) ∷ cells_in (split_at 124 s)
cells_in-split_at t [] = refl
cells_in-split_at t (x ∷ s) = elim (Bool-cases (x == 124)) [
  | inl bar ↦ rw (bar) refl
  | inr other ↦ rw (other) (grown (split_at 124 s))
]
  where
    grown :
        (ts : List Text)
        → cells_in (t ∷ grow x ts) ≡ trim_back (trim_front t) ∷ cells_in (grow x ts)
    grown [] = refl
    grown (u ∷ ts) = refl

-- The text behind the first cell of a line: `pad` stands beside each bar.
abbrev rest : Text → List Text → Text
rest pad [] = pad ++ 124 ∷ []
rest pad (b ∷ cells) = pad ++ 124 ∷ (pad ++ (b ++ rest pad cells))

join-rest :
    (pad a : Text) (cells : List Text)
    → join (pad ++ 124 ∷ pad) (a ∷ cells) ++ (pad ++ 124 ∷ []) ≡ a ++ rest pad cells
join-rest pad a [] = refl
join-rest pad a (b ∷ cells) =
    append_assoc a ((pad ++ 124 ∷ pad) ++ join (pad ++ 124 ∷ pad) (b ∷ cells)) (pad ++ 124 ∷ [])
    ∙ ap (λ s. a ++ s)
        (append_assoc (pad ++ 124 ∷ pad) (join (pad ++ 124 ∷ pad) (b ∷ cells)) (pad ++ 124 ∷ [])
          ∙ ap (λ s. (pad ++ 124 ∷ pad) ++ s) (join-rest pad b cells)
          ∙ append_assoc pad (124 ∷ pad) (b ++ rest pad cells))

-- A cell that the reader gets back from between the pads.
abbrev Readable : Text → Text → Type 0
Readable pad a =
    (contains 124 (pad ++ (a ++ pad)) ≡ false) × (trim_back (trim_front (pad ++ (a ++ pad))) ≡ a)

regroup : (pad a s : Text) → pad ++ (a ++ (pad ++ s)) ≡ (pad ++ (a ++ pad)) ++ s
regroup pad a s = sym (append_assoc pad (a ++ pad) s ∙ ap (λ t. pad ++ t) (append_assoc a pad s))

cells_in-rest :
    (pad a : Text) (cells : List Text)
    → Readable pad a
    → AllOf (Readable pad) cells
    → cells_in (split_at 124 (pad ++ (a ++ rest pad cells))) ≡ a ∷ cells
cells_in-rest pad a [] (plain, trims) hs =
    ap (λ s. cells_in (split_at 124 s)) (regroup pad a (124 ∷ []))
    ∙ ap cells_in (split_at-first 124 (pad ++ (a ++ pad)) [] plain)
    ∙ ap (λ t. t ∷ []) trims
cells_in-rest pad a (b ∷ cells) (plain, trims) (h, hs) =
    let more = pad ++ (b ++ rest pad cells) in
    ap (λ s. cells_in (split_at 124 s)) (regroup pad a (124 ∷ more))
    ∙ ap cells_in (split_at-first 124 (pad ++ (a ++ pad)) more plain)
    ∙ cells_in-split_at (pad ++ (a ++ pad)) more
    ∙ ap (λ t. t ∷ cells_in (split_at 124 more)) trims
    ∙ ap (λ ts. a ∷ ts) (cells_in-rest pad b cells h hs)

cell-Readable : (a : Text) → IsPlain a → Readable (32 ∷ []) a
cell-Readable a h =
    (ground (arith, contains-append 124 a (32 ∷ []), h, nat_eq.beq_iff 124 32), trim_back-space a)

cells-Readable : (cells : List Text) → AllPlain cells → AllOf (Readable (32 ∷ [])) cells
cells-Readable [] h = tt
cells-Readable (a ∷ cells) (h, hs) = (cell-Readable a h, cells-Readable cells hs)

all_dashes : (headers : List Text) → AllOf (Readable []) (map (λ h. chars "---") headers)
all_dashes [] = tt
all_dashes (h ∷ headers) = ((refl, refl), all_dashes headers)

-- The cells of a line that is not empty.
read-table_line :
    (a : Text) (cells : List Text) (lines : List Text)
    → AllPlain (a ∷ cells)
    → read_rows (table_line (a ∷ cells) ∷ lines) ≡ (a ∷ cells) ∷ read_rows lines
read-table_line a cells lines (h, hs) =
    ap (λ s. cells_in (split_at 124 (32 ∷ s)) ∷ read_rows lines) (join-rest (32 ∷ []) a cells)
    ∙ ap (λ row. row ∷ read_rows lines)
        (cells_in-rest (32 ∷ []) a cells (cell-Readable a h) (cells-Readable cells hs))

read-rule_line :
    (a : Text) (cells : List Text) (lines : List Text)
    → read_rows (rule_line (a ∷ cells) ∷ lines)
      ≡ map (λ h. chars "---") (a ∷ cells) ∷ read_rows lines
read-rule_line a cells lines =
    ap (λ s. cells_in (split_at 124 s) ∷ read_rows lines)
      (join-rest [] (chars "---") (map (λ h. chars "---") cells))
    ∙ ap (λ row. row ∷ read_rows lines)
        (cells_in-rest [] (chars "---") (map (λ h. chars "---") cells) (refl, refl)
          (all_dashes cells))

-- A row that has a cell, and no bar in its cells.
abbrev pub IsRow : List Text → Type 0
IsRow [] = ⊥
IsRow (a ∷ cells) = AllPlain (a ∷ cells)

read-row :
    (row : List Text) (lines : List Text)
    → IsRow row
    → read_rows (table_line row ∷ lines) ≡ row ∷ read_rows lines
read-row [] lines h = absurd h
read-row (a ∷ cells) lines h = read-table_line a cells lines h

read-rows :
    (rows : List (List Text)) (lines : List Text)
    → AllOf IsRow rows
    → read_rows (map table_line rows ++ lines) ≡ rows ++ read_rows lines
read-rows [] lines hs = refl
read-rows (r ∷ rows) lines (h, hs) =
    read-row r (map table_line rows ++ lines) h ∙ ap (λ rs. r ∷ rs) (read-rows rows lines hs)

-- The rows that a reader of the table finds: the header, the rule and the body.
abbrev pub table_rows : List Text → List (List Text) → List (List Text)
table_rows headers rows = headers ∷ map (λ h. chars "---") headers ∷ rows

-- A table whose header and rows have a cell each, and no bar in a cell, is read back from its
-- lines, and what follows it is read on.
pub table-read_rows :
    (headers : List Text) (rows : List (List Text)) (lines : List Text)
    → IsRow headers
    → AllOf IsRow rows
    → read_rows (table headers rows ++ lines) ≡ table_rows headers rows ++ read_rows lines
unfolding table
table-read_rows [] rows lines h hs = absurd h
table-read_rows (a ∷ headers) rows lines h hs =
    ap (λ ls. read_rows (table_line (a ∷ headers) ∷ rule_line (a ∷ headers) ∷ ls))
      (append_assoc (map table_line rows) ([] ∷ []) lines)
    ∙ read-table_line a headers (rule_line (a ∷ headers) ∷ (map table_line rows ++ [] ∷ lines)) h
    ∙ ap (λ rs. (a ∷ headers) ∷ rs)
        (read-rule_line a headers (map table_line rows ++ [] ∷ lines)
          ∙ ap (λ rs. map (λ h. chars "---") (a ∷ headers) ∷ rs) (read-rows rows ([] ∷ lines) hs))
