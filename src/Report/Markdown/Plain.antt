-- ===== src/Report/Markdown/Plain.antt =====
-- Texts that the report puts into cells, which hold no bar.
use time_sensitive_packet.Base.{
  AllOf, ℕ, suc, ◌≡◌, refl, ap, ◌||◌, Option, none, some, List, [], ◌∷◌, ◌++◌, length, if_lem,
  Gives, Text, chars, text_eq, lookup, contains-append, contains-str_nat, contains-str_int, str_nat,
  str_int, arith,
}
use time_sensitive_packet.Base.Int.{ℤ}
use time_sensitive_packet.Floats.{FloatOps}
use time_sensitive_packet.Stats.Effect.{Effect, not_available, negligible, small, medium, large}
use time_sensitive_packet.Stats.Bootstrap.{BootstrapCi}
use time_sensitive_packet.Report.Markdown.{
  Formats, effect_text, Value, missing, floating, whole, fmt, fmt_signed, fmt_p, fmt_2, fmt_all,
  value_of, dscp_text, interval_text, point_text,
}
use time_sensitive_packet.Report.Markdown.Tables.{IsPlain, AllPlain}

-- A format writes no bar.
pub record FormatsLaws {F : FloatOps} (formats : Formats F) : Type 0 where
  pub fixed-IsPlain : (digits : ℕ) (x : F.Float) → IsPlain (formats.fixed digits x)
  pub signed-IsPlain : (digits : ℕ) (x : F.Float) → IsPlain (formats.signed digits x)
  pub exponent-IsPlain : (digits : ℕ) (x : F.Float) → IsPlain (formats.exponent digits x)

infixr 4 ◌and◌
abbrev pub ◌and◌ {ℓ κ} : {A : Type ℓ} {B : Type κ} → A → B → A × B
a and b = (a, b)

pub append-IsPlain : (s t : Text) → IsPlain s → IsPlain t → IsPlain (s ++ t)
append-IsPlain s t hs ht = ground (arith, contains-append 124 s t)

pub str_nat-IsPlain : (n : ℕ) → IsPlain (str_nat n)
str_nat-IsPlain n = contains-str_nat 124 n refl

pub str_int-IsPlain : (n : ℤ) → IsPlain (str_int n)
str_int-IsPlain n = contains-str_int 124 n refl refl

pub effect_text-IsPlain : (e : Effect) → IsPlain (effect_text e)
effect_text-IsPlain not_available = refl
effect_text-IsPlain negligible = refl
effect_text-IsPlain small = refl
effect_text-IsPlain medium = refl
effect_text-IsPlain large = refl

module _ (F : FloatOps) (formats : Formats F) (laws : FormatsLaws formats) where
  pub fmt-IsPlain : (v : Value F) (digits : ℕ) → IsPlain (fmt F formats v digits)
  unfolding fmt
  fmt-IsPlain missing digits = refl
  fmt-IsPlain (floating x) digits =
      if_lem IsPlain (F.is_nan x || F.is_inf x) refl (laws.fixed-IsPlain digits x)
  fmt-IsPlain (whole n) digits = str_int-IsPlain n

  pub fmt_signed-IsPlain : (x : F.Float) → IsPlain (fmt_signed F formats x)
  unfolding fmt_signed
  fmt_signed-IsPlain x = if_lem IsPlain (F.is_nan x) refl (laws.signed-IsPlain 2 x)

  pub fmt_p-IsPlain : (tiny p : F.Float) → IsPlain (fmt_p F formats tiny p)
  unfolding fmt_p
  fmt_p-IsPlain tiny p = if_lem IsPlain (F.is_nan p) refl (
      if_lem IsPlain (F.lt p tiny) refl (
        if_lem IsPlain (F.lt p (F.decimal 1 2)) (laws.exponent-IsPlain 2 p)
          (laws.fixed-IsPlain 2 p)))

  pub interval_text-IsPlain : (low high : F.Float) → IsPlain (interval_text F formats low high)
  interval_text-IsPlain low high =
      let start = chars "[" ++ fmt_2 F formats low ++ chars ", " in
      append-IsPlain (start ++ fmt_2 F formats high) (chars "]")
        (append-IsPlain start (fmt_2 F formats high)
          (append-IsPlain (chars "[" ++ fmt_2 F formats low) (chars ", ")
            (fmt-IsPlain (floating low) 2) refl)
          (fmt-IsPlain (floating high) 2))
        refl

  pub point_text-IsPlain : (b : BootstrapCi F) → IsPlain (point_text F formats b)
  point_text-IsPlain b =
      append-IsPlain (fmt_2 F formats b.point ++ chars " ") (interval_text F formats b.low b.high)
        (append-IsPlain (fmt_2 F formats b.point) (chars " ") (fmt-IsPlain (floating b.point) 2)
          refl)
        (interval_text-IsPlain b.low b.high)

  pub dscp_text-IsPlain : (d : Option _) → IsPlain (dscp_text F formats d)
  dscp_text-IsPlain none = refl
  dscp_text-IsPlain (some d) = fmt-IsPlain (value_of F formats d.dominant_dscp) 2

  -- The figures that the tables show are there.
  abbrev pub HasFigures : List Text → List (Text × F.Float) → Type 0
  HasFigures ks d = AllOf (λ k. (x : F.Float) × (lookup k d ≡ some x)) ks

  pub fmt_all-Gives :
      (d : List (Text × F.Float)) (ks : List Text)
      → HasFigures ks d
      → Gives (λ ts. (length ts ≡ length ks) × AllPlain ts) (fmt_all F formats d ks)
  unfolding fmt_all
  fmt_all-Gives d [] h = ([], refl, (refl, tt))
  fmt_all-Gives d (k ∷ ks) ((x, e), hs) =
      let (ts, g, (w, p)) = fmt_all-Gives d ks hs in
      (fmt_2 F formats x ∷ ts, rw (e, g) refl, (ap suc w, (fmt-IsPlain (floating x) 2, p)))
