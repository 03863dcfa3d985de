-- ===== src/Loader/Names.antt =====
-- `parse_name` on names of the form that testbed/run.sh makes.
use time_sensitive_packet.Base.{
  ℕ, ◌≡◌, refl, ap, ◌∙◌, true, false, none, some, [], ◌∷◌, ◌++◌, arith, Text, chars, isdigit,
  all_digits, digits_from,
}
use time_sensitive_packet.Loader.{run_number, condition_from, match_suffix, parse_name}

-- `_run` and the digits.
abbrev pub suffix : Text → Text
suffix ds = chars "_run" ++ ds

-- A text with a character that is no digit further on.
all_digits-suffix : (s ds : Text) → all_digits (s ++ suffix ds) ≡ false
all_digits-suffix [] ds = refl
all_digits-suffix (c ∷ s) ds = ground (arith, all_digits-suffix s ds)

isdigit-suffix : (s ds : Text) → isdigit (s ++ suffix ds) ≡ false
isdigit-suffix [] ds = refl
isdigit-suffix (c ∷ s) ds = all_digits-suffix (c ∷ s) ds

run_number-suffix :
    (ds : Text) → isdigit ds ≡ true → run_number (suffix ds) ≡ some (digits_from 0 ds)
run_number-suffix ds h = rw h refl

-- Nothing that is longer is a suffix of the form.
run_number-longer : (c : ℕ) (s ds : Text) → run_number (c ∷ s ++ suffix ds) ≡ none
run_number-longer c [] ds = ground arith
run_number-longer c (a ∷ []) ds = ground arith
run_number-longer c (a ∷ b ∷ []) ds = ground arith
run_number-longer c (a ∷ b ∷ d ∷ s) ds = ground (arith, isdigit-suffix s ds)

match_suffix-suffix :
    (c : ℕ) (s ds : Text)
    → isdigit ds ≡ true
    → match_suffix (c ∷ s ++ suffix ds) ≡ some (c ∷ s, digits_from 0 ds)
unfolding match_suffix
match_suffix-suffix c [] ds h =
    ap (λ r. condition_from c (suffix ds) r (match_suffix (suffix ds))) (run_number-suffix ds h)
match_suffix-suffix c (d ∷ s) ds h =
    ap (λ r. condition_from c (d ∷ s ++ suffix ds) r (match_suffix (d ∷ s ++ suffix ds)))
      (run_number-longer d s ds)
    ∙ ap (condition_from c (d ∷ s ++ suffix ds) none) (match_suffix-suffix d s ds h)

-- A name that is made of a condition with at least one character, `_run` and digits gives back the
-- condition and the number, even if the condition itself has `_run` and digits in it.
pub parse_name-suffix :
    (c : ℕ) (s ds : Text)
    → isdigit ds ≡ true
    → parse_name (c ∷ s ++ suffix ds) ≡ (c ∷ s, some (digits_from 0 ds))
unfolding parse_name
parse_name-suffix c s ds h = rw (match_suffix-suffix c s ds h, parse_name) refl
