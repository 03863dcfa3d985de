-- ===== src/Bpfmaps/Dump.antt =====
-- `dump_percpu` and the command `counters` of testbed/bpfmaps.py, from the JSON that bpftool prints.
use time_sensitive_packet.Base.{
  ℕ, suc, ◌+◌, ◌-◌, ◌*◌, ◌&&◌, ◌||◌, Option, none, some, List, [], ◌∷◌, ltb, leb, ◌==◌,
  if◌then◌else◌, Result, ok, err, value_error, type_error, map_result, ◌>>=◌, Text, chars, text_eq,
  strip, str_nat, str_int, lookup, insert, sum_ints,
}
use time_sensitive_packet.Base.Int.{ℤ, pos}
use time_sensitive_packet.Bytes.{le_value}
use time_sensitive_packet.Loader.{int_of}

abbrev pub cnt_names : List Text
cnt_names =
    chars "normal"
    ∷ chars "ts_avtp"
    ∷ chars "ts_pcp"
    ∷ chars "ts_udp"
    ∷ chars "dscp_marked"
    ∷ chars "parse_short"
    ∷ []

-- A number in the JSON: an integer, a list of the bytes in hexadecimal, or a text.
pub data Value : Type 0 where
  integer : ℤ → Value
  bytes : List Text → Value
  text : Text → Value

-- A digit in base 16.
abbrev pub hex_digit : ℕ → Option ℕ
hex_digit c =
    if leb 48 c && leb c 57
    then some (c - 48)
    else (if leb 97 c && leb c 102
        then some (c - 87)
        else (if leb 65 c && leb c 70 then some (c - 55) else none))

abbrev pub hex_step : Option ℕ → ℕ → Result ℕ
hex_step none n = err value_error
hex_step (some d) n = ok (16 * n + d)

abbrev pub hex_from : ℕ → Text → Result ℕ
hex_from n [] = ok n
hex_from n (c ∷ s) = do m ← hex_step (hex_digit c) n; hex_from m s

abbrev pub hex_digits : Text → Result ℕ
hex_digits [] = err value_error
hex_digits (c ∷ s) = hex_from 0 (c ∷ s)

-- `int(b, 16)`, with or without a prefix 0x. (Signs, spaces and underscores, which bpftool does not
-- write, are errors here.)
unfoldable pub int_16 : Text → Result ℕ
int_16 [] = err value_error
int_16 (c ∷ []) = hex_digits (c ∷ [])
int_16 (c ∷ d ∷ s) =
    if (c == 48) && ((d == 120) || (d == 88)) then hex_digits s else hex_digits (c ∷ d ∷ s)

-- An element of `bytes(...)`.
abbrev pub byte_of : ℕ → Result ℕ
byte_of n = if ltb n 256 then ok n else err value_error

unfoldable pub byte_16 : Text → Result ℕ
unfolding int_16
byte_16 b = do n ← int_16 b; byte_of n

-- `_to_int`
unfoldable pub to_int : Value → Result ℤ
unfolding byte_16
to_int (integer n) = ok n
to_int (bytes bs) = do ns ← map_result byte_16 bs; ok (pos (le_value ns))
to_int (text s) = int_of (strip s)

-- `int(key)`
abbrev pub int_of_key : Value → Result ℤ
int_of_key (integer n) = ok n
int_of_key (bytes bs) = err type_error
int_of_key (text s) = int_of (strip s)

-- An entry of the dump, or what stands under its key "formatted": the key, and the values of the
-- CPUs or the one value, if they are there.
pub record Fields : Type 0 where
  pub key : Value
  pub values : Option (List Value)
  pub value : Option Value

pub record Entry : Type 0 where
  pub raw : Fields
  pub formatted : Option Fields

abbrev pub or_zero : Option Value → Value
or_zero none = integer (pos 0)
or_zero (some v) = v

-- `d.get("values") or [{"value": d.get("value", 0)}]`
abbrev pub values_of : Fields → List Value
values_of d = elim d.values [
  | none ↦ or_zero d.value ∷ []
  | some vs ↦ elim vs [ [] ↦ or_zero d.value ∷ [] | v ∷ more ↦ v ∷ more ]
]

abbrev pub sum_of : List Value → Result ℤ
sum_of vs = do ns ← map_result to_int vs; ok (sum_ints ns)

-- The key and the sum of an entry.
unfoldable pub entry_of : Entry → Result (Text × ℤ)
unfolding to_int
entry_of e = elim e.formatted [
  | some f ↦ (do key ← int_of_key f.key; total ← sum_of (values_of f); ok (str_int key, total))
  | none ↦ (do key ← to_int e.raw.key; total ← sum_of (values_of e.raw); ok (str_int key, total))
]

unfoldable pub dump_percpu : List Entry → List (Text × ℤ) → Result (List (Text × ℤ))
unfolding entry_of
dump_percpu [] res = ok res
dump_percpu (e ∷ entries) res = do item ← entry_of e; dump_percpu entries (insert item.0 item.1 res)

abbrev pub int_or_zero : Option ℤ → ℤ
int_or_zero none = pos 0
int_or_zero (some n) = n

-- `{name: raw.get(str(i), 0) for i, name in enumerate(CNT_NAMES)}`
abbrev pub named_from : ℕ → List Text → List (Text × ℤ) → List (Text × ℤ)
named_from i [] raw = []
named_from i (name ∷ names) raw =
    (name, int_or_zero (lookup (str_nat i) raw)) ∷ named_from (suc i) names raw

unfoldable pub counters : List Entry → Result (List (Text × ℤ))
unfolding dump_percpu
counters entries = do raw ← dump_percpu entries []; ok (named_from 0 cnt_names raw)
