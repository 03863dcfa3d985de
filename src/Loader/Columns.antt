-- ===== src/Loader/Columns.antt =====
-- The columns that `load_csv` fills, by their numbers of cells.
pub mod Aligned
use mathlib.Core.Path.{subst}
use time_sensitive_packet.Base.{
  ℕ, zero, suc, ◌+◌, ◌≡◌, ◌<◌, refl, sym, ap, ◌∙◌, Bool, true, false, not, Option, none, some, List,
  [], ◌∷◌, ◌++◌, length, arith, if◌then◌else◌, Bool-cases, Option-cases, inl, inr, Result, ok, err,
  Exception, raise_if, map_result, ◌>>=◌, ◌>>◌, OnOk, OnOk-bind, OnOk-raise_if, OnOk-imp, Text,
  chars, text_eq, contains, lookup, insert, Distinct, lookup-insert, overflow_error, value_error,
}
use time_sensitive_packet.Base.Int.{ℤ}
use time_sensitive_packet.Floats.{FloatOps}
use time_sensitive_packet.Loader.{
  cell_text, cells_of, Table, Run, fits_int64, int64_array, add_row, add_rows, no_cells, column,
  to_int, ints, tos_column, tos_of, run_of, no_rows, load_csv, required_columns, lacks, parse_name,
}

-- The number of cells in a column.
abbrev pub height_of : Option (List Text) → Option ℕ
height_of none = none
height_of (some cells) = some (length cells)

abbrev pub height : Text → List (Text × List Text) → Option ℕ
height c columns = height_of (lookup c columns)

abbrev one_more : Option ℕ → Option ℕ
one_more none = none
one_more (some n) = some (suc n)

length-snoc : (cells : List Text) (cell : Text) → length (cells ++ cell ∷ []) ≡ suc (length cells)
length-snoc [] cell = refl
length-snoc (x ∷ cells) cell = omega (arith, length-snoc cells cell)

-- After a cell was added to `c`, and one to each column of `header`.
height-add :
    (c d cell : Text) (cells : List Text) (columns : List (Text × List Text)) (header : List Text)
    → lookup c columns ≡ some cells
    → contains c header ≡ false
    → let added = height d (insert c (cells ++ cell ∷ []) columns) in
      (if contains d header then one_more added else added)
      ≡ (if contains d (c ∷ header) then one_more (height d columns) else height d columns)
height-add c d cell cells columns header found absent = elim (Bool-cases (text_eq.beq d c)) [
  | inl same ↦
      let e : d ≡ c = (text_eq.beq_iff d c).0 same in
      subst
        (λ d.
          (if contains d header
            then one_more (height d (insert c (cells ++ cell ∷ []) columns))
            else height d (insert c (cells ++ cell ∷ []) columns))
          ≡ (if contains d (c ∷ header) then one_more (height d columns) else height d columns))
        (sym e) (here ((text_eq.beq_iff c c).1 refl))
  | inr other ↦ rw (ap height_of (lookup-insert c d (cells ++ cell ∷ []) columns), other) refl
]
  where
    here :
        text_eq.beq c c ≡ true
        → (if contains c header
            then one_more (height c (insert c (cells ++ cell ∷ []) columns))
            else height c (insert c (cells ++ cell ∷ []) columns))
          ≡ (if contains c (c ∷ header) then one_more (height c columns) else height c columns)
    here r =
        rw (absent, lookup-insert c c (cells ++ cell ∷ []) columns, found, r)
          (ap some (length-snoc cells cell))

-- Each column of the header is one cell longer.
abbrev IsAdded : List Text → List (Text × List Text) → List (Text × List Text) → Type 0
IsAdded header columns after =
    (d : Text)
    → height d after ≡ (if contains d header then one_more (height d columns) else height d columns)

add_row-IsAdded :
    (header : List Text) (row : List (Text × Option Text)) (columns : List (Text × List Text))
    → Distinct header
    → OnOk (IsAdded header columns) (add_row header row columns)
unfolding add_row
add_row-IsAdded [] row columns dist = λ d. refl
add_row-IsAdded (c ∷ header) row columns dist = elim (Option-cases (lookup c columns)) [
  | inl e ↦ rw (e, add_row) tt
  | inr (cells, found) ↦ elim (Option-cases (lookup c row)) [
    | inl e ↦ rw (found, e, add_row) tt
    | inr (cell, e) ↦
        rw (found, e, add_row)
          (OnOk-imp (IsAdded header (insert c (cells ++ cell_text cell ∷ []) columns))
            (IsAdded (c ∷ header) columns)
            (add_row header row (insert c (cells ++ cell_text cell ∷ []) columns))
            (λ after h d. h d ∙ height-add c d (cell_text cell) cells columns header found dist.0)
            (add_row-IsAdded header row (insert c (cells ++ cell_text cell ∷ []) columns) dist.1))
  ]
]

-- The columns are those of the header, with n cells each.
abbrev pub IsFilled : List Text → ℕ → List (Text × List Text) → Type 0
IsFilled header n columns =
    (d : Text) → height d columns ≡ (if contains d header then some n else none)

one_more-filled :
    (b : Bool) (n : ℕ) (h : Option ℕ)
    → h ≡ (if b then some n else none)
    → (if b then one_more h else h) ≡ (if b then some (suc n) else none)
one_more-filled true n h e = ap one_more e
one_more-filled false n h e = e

pub add_rows-IsFilled :
    (header : List Text) (rows : List (List (Text × Option Text))) (n : ℕ)
    (columns : List (Text × List Text))
    → Distinct header
    → IsFilled header n columns
    → OnOk (IsFilled header (length rows + n)) (add_rows header rows columns)
unfolding add_rows
add_rows-IsFilled header [] n columns dist filled =
    λ d. filled d ∙ ap (λ m. if contains d header then some m else none) (omega arith)
add_rows-IsFilled header (row ∷ rows) n columns dist filled =
    OnOk-bind (IsFilled header (suc n)) (IsFilled header (suc (length rows) + n))
      (add_row header row columns) (add_rows header rows)
      (OnOk-imp (IsAdded header columns) (IsFilled header (suc n)) (add_row header row columns)
        (λ after h d. h d ∙ one_more-filled (contains d header) n (height d columns) (filled d))
        (add_row-IsAdded header row columns dist))
      (λ after h.
        OnOk-imp (IsFilled header (length rows + suc n)) (IsFilled header (suc (length rows) + n))
          (add_rows header rows after)
          (λ last g d. g d ∙ ap (λ m. if contains d header then some m else none) (omega arith))
          (add_rows-IsFilled header rows (suc n) after dist h))

pub height-no_cells :
    (header : List Text) (columns : List (Text × List Text)) (d : Text)
    → height d (no_cells header columns) ≡ (if contains d header then some 0 else height d columns)
height-no_cells [] columns d = refl
height-no_cells (c ∷ header) columns d =
    height-no_cells header (insert c [] columns) d
    ∙ ap (λ h. if contains d header then some 0 else height_of h) (lookup-insert c d [] columns)
    ∙ ground arith

module _ {A B : Type 0} where
  pub length-map_result :
      (f : A → Result B) (xs : List A) → OnOk (λ ys. length ys ≡ length xs) (map_result f xs)
  length-map_result f [] = refl
  length-map_result f (x ∷ xs) =
      OnOk-bind (λ y. Unit {0}) (λ ys. length ys ≡ suc (length xs)) (f x)
        (λ y. map_result f xs >>= λ ys. ok (y ∷ ys)) (anything (f x))
        (λ y u.
          OnOk-bind (λ ys. length ys ≡ length xs) (λ ys. length ys ≡ suc (length xs))
            (map_result f xs) (λ ys. ok (y ∷ ys)) (length-map_result f xs)
            (λ ys e. omega (arith, e)))
    where
      anything : (r : Result B) → OnOk (λ y. Unit {0}) r
      anything (ok y) = tt
      anything (err x) = tt

pub length-int64_array : (xs : List ℤ) → OnOk (λ ys. length ys ≡ length xs) (int64_array xs)
length-int64_array [] = refl
length-int64_array (x ∷ xs) =
    OnOk-raise_if (λ ys. length ys ≡ suc (length xs)) (not (fits_int64 x)) overflow_error
      (int64_array xs >>= λ rest. ok (x ∷ rest))
      (λ fits.
        OnOk-bind (λ ys. length ys ≡ length xs) (λ ys. length ys ≡ suc (length xs)) (int64_array xs)
          (λ rest. ok (x ∷ rest)) (length-int64_array xs) (λ ys e. omega (arith, e)))

pub column-length :
    (header : List Text) (n : ℕ) (columns : List (Text × List Text)) (c : Text)
    → IsFilled header n columns
    → contains c header ≡ true
    → OnOk (λ cells. length cells ≡ n) (column c columns)
column-length header n columns c filled there = elim (Option-cases (lookup c columns)) [
  | inl e ↦ subst (λ o. OnOk (λ cells. length cells ≡ n) (cells_of o)) (sym e) tt
  | inr (cells, e) ↦
      subst (λ o. OnOk (λ cells. length cells ≡ n) (cells_of o)) (sym e)
        (ground (arith, filled c, there, e))
]
