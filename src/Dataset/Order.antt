-- ===== src/Dataset/Order.antt =====
-- The order of the conditions, and the cells by condition.
use time_sensitive_packet.Base.{
  ◌≡◌, refl, Bool, true, false, not, Option, none, some, List, [], ◌∷◌, arith, Text, all,
}
use time_sensitive_packet.Floats.{FloatOps}
use time_sensitive_packet.Loader.{Run}
use time_sensitive_packet.Dataset.{text_lt, order, key_lt, Cell}

text_lt_trans : (a b c : Text) → text_lt a b ≡ true → text_lt b c ≡ true → text_lt a c ≡ true
text_lt_trans [] [] c h k = cc
text_lt_trans [] (y ∷ b) [] h k = cc
text_lt_trans [] (y ∷ b) (z ∷ c) h k = refl
text_lt_trans (x ∷ a) [] c h k = cc
text_lt_trans (x ∷ a) (y ∷ b) [] h k = cc
text_lt_trans (x ∷ a) (y ∷ b) (z ∷ c) h k = ground (arith, text_lt_trans a b c)

-- No name has a smaller key than an earlier one.
abbrev pub IsOrdered : List Text → Type 0
IsOrdered [] = Unit
IsOrdered (c ∷ names) = (all (λ d. not (key_lt (order d) (order c))) names ≡ true) × IsOrdered names

module _ (F : FloatOps) where
  abbrev pub cell_of : Text → Option (List (Run F)) → Option (Cell F)
  cell_of c none = none
  cell_of c (some runs) = some (record { condition = c; runs = runs })

  abbrev pub names_of : List (Text × Cell F) → List Text
  names_of [] = []
  names_of ((c, cell) ∷ ds) = c ∷ names_of ds

  abbrev there : Option (List (Run F)) → Bool
  there none = false
  there (some runs) = true
