-- ===== src/Base/Strings.antt =====
-- Python's `str` as the native text, with the operations that the analysis uses.
use time_sensitive_packet.Base.Tests.{leb, if◌then◌else◌}
use time_sensitive_packet.Base.Keys.{Eq}
use Prim.Native.Nat.{◌-◌}
use Prim.Native.Char.{Char, code}
use Prim.Native.String.{String, [], ◌∷◌, char_at}
use text.Mathlib.Text.{◌==◌ as str_eq}
use text.Mathlib.TextEquality.{eq_iff}
use mathlib.Core.Bool.{◌&&◌}

instance abbrev pub str_key : Eq String
str_key = record { beq = str_eq; beq_iff = eq_iff }

-- `s.lower()`, of the ASCII letters; other characters stay as they are.
abbrev pub lower_char : Char → Char
lower_char c =
    if leb 65 (code c) && leb (code c) 90
    then char_at "abcdefghijklmnopqrstuvwxyz" (code c - 65)
    else c

abbrev pub lower : String → String
lower [] = []
lower (c ∷ s) = lower_char c ∷ lower s
