-- ===== src/Metrics/Dscp.antt =====
-- `dscp_distribution` of metrics.py: histograms of the received TOS bytes.
pub mod Laws
pub mod Dominant
use time_sensitive_packet.Base.{
  ℕ, suc, ◌-◌, ◌/◌, ◌%◌, Bool, true, false, Option, none, some, List, [], ◌∷◌, map, length, get_or,
  if◌then◌else◌,
}
use time_sensitive_packet.Base.Int.{ℤ, pos, negsuc, leb_ℤ}
use time_sensitive_packet.Numpy.{IntArrays}

-- `arr[arr >= 0]`
abbrev pub valid : List ℤ → List ℤ
valid [] = []
valid (x ∷ xs) = if leb_ℤ (pos 0) x then x ∷ valid xs else valid xs

-- `x >> 2` and `x & 0x3`, of negative numbers in two's complement too.
abbrev pub shift_2 : ℤ → ℤ
shift_2 (pos n) = pos (n / 4)
shift_2 (negsuc n) = negsuc (n / 4)

abbrev pub low_2 : ℤ → ℤ
low_2 (pos n) = pos (n % 4)
low_2 (negsuc n) = pos (3 - n % 4)

pub record Distribution : Type 0 where
  pub dscp : List (ℤ × ℕ)
  pub ecn : List (ℤ × ℕ)
  pub tos : List (ℤ × ℕ)
  pub missing : ℕ
  pub dominant_dscp : Option ℤ

abbrev pub keys : List (ℤ × ℕ) → List ℤ
keys [] = []
keys ((k, n) ∷ d) = k ∷ keys d

abbrev pub counts : List (ℤ × ℕ) → List ℕ
counts [] = []
counts ((k, n) ∷ d) = n ∷ counts d

module _ (np : IntArrays) where
  -- `dscp_vals[np.argmax(dscp_counts)]`
  abbrev pub dominant : List (ℤ × ℕ) → ℤ
  dominant d = get_or (keys d) (np.argmax (counts d)) (pos 0)

  unfoldable pub distribution_of : List ℤ → Distribution
  distribution_of arr =
      let v = valid arr in
      let dscp = np.unique_counts (map shift_2 v) in
      record {
        dscp = dscp;
        ecn = np.unique_counts (map low_2 v);
        tos = np.unique_counts v;
        missing = length arr - length v;
        dominant_dscp = elim v [ [] ↦ none | _ ∷ _ ↦ some (dominant dscp) ];
      }

  unfoldable pub dscp_distribution : Option (List ℤ) → Option Distribution
  unfolding distribution_of
  dscp_distribution none = none
  dscp_distribution (some arr) = some (distribution_of arr)
