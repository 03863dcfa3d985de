-- ===== src/Bytes.antt =====
-- `struct.pack`, `struct.unpack` and `int.from_bytes` on unsigned fields: a byte string is a list
-- of numbers below 256.
pub mod Laws
use mathlib.Core.List.{reverse}
use time_sensitive_packet.Base.{
  ℕ, zero, suc, ◌+◌, ◌*◌, ◌/◌, ◌%◌, ◌^◌, ◌<◌, Bool, true, List, [], ◌∷◌, ltb, Result, ok, err,
  Exception, value_error, raise_if, ◌>>◌, ◌>>=◌, not,
}

-- `n` bytes of `x`, the low byte first.
abbrev pub le_bytes : ℕ → ℕ → List ℕ
le_bytes zero x = []
le_bytes (suc n) x = x % 256 ∷ le_bytes n (x / 256)

-- `int.from_bytes(bs, "little")`
abbrev pub le_value : List ℕ → ℕ
le_value [] = 0
le_value (b ∷ bs) = b + 256 * le_value bs

-- Network byte order.
abbrev pub be_bytes : ℕ → ℕ → List ℕ
be_bytes n x = reverse (le_bytes n x)

abbrev pub be_value : List ℕ → ℕ
be_value bs = le_value (reverse bs)

-- Every element is a byte.
abbrev pub IsBytes : List ℕ → Type 0
IsBytes [] = Unit
IsBytes (b ∷ bs) = (b < 256) × IsBytes bs
