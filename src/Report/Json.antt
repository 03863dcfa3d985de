-- ===== src/Report/Json.antt =====
-- `sanitize_json` of report.py. numpy's scalars and arrays, tuples and paths stand for the number,
-- the list or the text that they become.
pub mod Strict
use time_sensitive_packet.Base.{
  ℕ, Bool, true, false, ◌||◌, List, [], ◌∷◌, ◌≡◌, refl, ap, if◌then◌else◌, Text, Bool-cases, inl,
  inr, arith,
}
use time_sensitive_packet.Base.Int.{ℤ}
use time_sensitive_packet.Floats.{FloatOps}

module _ (F : FloatOps) where
  -- A value, the items of a list and the items of a dict.
  mutual
    pub data Json : Type 0 where
      null : Json
      boolean : Bool → Json
      integer : ℤ → Json
      number : F.Float → Json
      text : Text → Json
      list : Items → Json
      dict : Entries → Json

    pub data Items : Type 0 where
      no_items : Items
      item : Json → Items → Items

    pub data Entries : Type 0 where
      no_entries : Entries
      entry : Text → Json → Entries → Entries

  unfoldable mutual
    pub sanitize_json : Json → Json
    sanitize_json null = null
    sanitize_json (boolean b) = boolean b
    sanitize_json (integer n) = integer n
    sanitize_json (number x) = if F.is_nan x || F.is_inf x then null else number x
    sanitize_json (text s) = text s
    sanitize_json (list xs) = list (sanitize_items xs)
    sanitize_json (dict d) = dict (sanitize_entries d)

    pub sanitize_items : Items → Items
    sanitize_items no_items = no_items
    sanitize_items (item x xs) = item (sanitize_json x) (sanitize_items xs)

    pub sanitize_entries : Entries → Entries
    sanitize_entries no_entries = no_entries
    sanitize_entries (entry k x d) = entry k (sanitize_json x) (sanitize_entries d)
