-- ===== src/Report/Json/Strict.antt =====
-- JSON values without nan and infinities.
use time_sensitive_packet.Base.{◌≡◌, refl, ap, ◌∙◌, false, ◌||◌, Bool-cases, inl, inr}
use time_sensitive_packet.Floats.{FloatOps}
use time_sensitive_packet.Report.Json.{
  Json, null, boolean, integer, number, text, list, dict, Items, no_items, item, Entries,
  no_entries, entry, sanitize_json, sanitize_items, sanitize_entries,
}

module _ (F : FloatOps) where
  -- No float in it is nan or an infinity, so `json.dumps(..., allow_nan=False)` accepts it.
  unfoldable mutual
    pub IsStrict : Json F → Type 0
    IsStrict null = Unit
    IsStrict (boolean b) = Unit
    IsStrict (integer n) = Unit
    IsStrict (number x) = (F.is_nan x || F.is_inf x) ≡ false
    IsStrict (text s) = Unit
    IsStrict (list xs) = AreStrict xs
    IsStrict (dict d) = HasStrict d

    pub AreStrict : Items F → Type 0
    AreStrict no_items = Unit
    AreStrict (item x xs) = IsStrict x × AreStrict xs

    pub HasStrict : Entries F → Type 0
    HasStrict no_entries = Unit
    HasStrict (entry k x d) = IsStrict x × HasStrict d

  mutual
    unfolding IsStrict sanitize_json

    sanitized : (j : Json F) → IsStrict (sanitize_json F j)
    sanitized null = tt
    sanitized (boolean b) = tt
    sanitized (integer n) = tt
    sanitized (number x) = elim (Bool-cases (F.is_nan x || F.is_inf x)) [
      | inl bad ↦ rw bad tt
      | inr good ↦ rw good good
    ]
    sanitized (text s) = tt
    sanitized (list xs) = sanitized_items xs
    sanitized (dict d) = sanitized_entries d

    sanitized_items : (xs : Items F) → AreStrict (sanitize_items F xs)
    sanitized_items no_items = tt
    sanitized_items (item x xs) = (sanitized x, sanitized_items xs)

    sanitized_entries : (d : Entries F) → HasStrict (sanitize_entries F d)
    sanitized_entries no_entries = tt
    sanitized_entries (entry k x d) = (sanitized x, sanitized_entries d)

  -- A strict value stays as it is.
  mutual
    unfolding IsStrict sanitize_json

    unchanged : (j : Json F) → IsStrict j → sanitize_json F j ≡ j
    unchanged null h = refl
    unchanged (boolean b) h = refl
    unchanged (integer n) h = refl
    unchanged (number x) h = rw h refl
    unchanged (text s) h = refl
    unchanged (list xs) h = ap list (unchanged_items xs h)
    unchanged (dict d) h = ap dict (unchanged_entries d h)

    unchanged_items : (xs : Items F) → AreStrict xs → sanitize_items F xs ≡ xs
    unchanged_items no_items h = refl
    unchanged_items (item x xs) h =
        ap (λ y. item y (sanitize_items F xs)) (unchanged x h.0)
        ∙ ap (item x) (unchanged_items xs h.1)

    unchanged_entries : (d : Entries F) → HasStrict d → sanitize_entries F d ≡ d
    unchanged_entries no_entries h = refl
    unchanged_entries (entry k x d) h =
        ap (λ y. entry k y (sanitize_entries F d)) (unchanged x h.0)
        ∙ ap (entry k x) (unchanged_entries d h.1)

  -- A sanitized value has no nan and no infinity anywhere in it, and sanitizing it again changes
  -- nothing.
  pub sanitize_json-IsStrict :
      (j : Json F)
      → IsStrict (sanitize_json F j) × (sanitize_json F (sanitize_json F j) ≡ sanitize_json F j)
  sanitize_json-IsStrict j = (sanitized j, unchanged (sanitize_json F j) (sanitized j))
