-- ===== src/Bpfmaps.antt =====
-- `set_ts_config` of testbed/bpfmaps.py: the key and the value that it hands to bpftool, which the
-- kernel stores and the classifier reads as `struct ts_config`. The arguments are the integers that
-- `int` makes of the command line. What it reads is in Dump and Counters, and
-- `main` in Command.
pub mod Command
pub mod Dump
pub mod Counters
use time_sensitive_packet.Base.{
  ℕ, ◌^◌, ◌<◌, ◌≡◌, refl, List, [], ◌∷◌, ◌++◌, take, drop, ltb, lt→ltb, if◌then◌else◌, Result, ok,
  err, struct_error, ◌>>=◌,
}
use time_sensitive_packet.Base.Int.{ℤ, pos, negsuc}
use time_sensitive_packet.Bytes.{le_bytes, le_value}
use time_sensitive_packet.Bytes.Laws.{le_value-le_bytes}
use time_sensitive_packet.Classifier.{TsConfig}

-- `struct.pack("<I", x)`
abbrev pub pack_u32 : ℤ → Result (List ℕ)
pack_u32 (negsuc n) = err struct_error
pack_u32 (pos n) = if ltb n (2 ^ 32) then ok (le_bytes 4 n) else err struct_error

unfoldable pub set_ts_config : ℤ → ℤ → ℤ → Result (List ℕ × List ℕ)
set_ts_config priority dscp flags = do
  key ← pack_u32 (pos 0)
  p ← pack_u32 priority
  d ← pack_u32 dscp
  f ← pack_u32 flags
  z ← pack_u32 (pos 0)
  ok (key, p ++ d ++ f ++ z)

-- `struct ts_config` on a host with the low byte first.
abbrev pub config_at : List ℕ → TsConfig
config_at value = record {
  priority = le_value (take 4 value);
  dscp = le_value (take 4 (drop 4 value));
  flags = le_value (take 4 (drop 8 value));
}

config_eq :
    (cfg : TsConfig) (p d f : ℕ)
    → p ≡ cfg.priority
    → d ≡ cfg.dscp
    → f ≡ cfg.flags
    → record { priority = p; dscp = d; flags = f } ≡ cfg
config_eq cfg p d f e g h = λ i. record { priority = e i; dscp = g i; flags = h i }

-- A configuration whose three numbers fit 32 bits is written as key 0 and a value that the
-- classifier reads as that configuration.
pub set_ts_config-config_at :
    (cfg : TsConfig)
    → cfg.priority < 2 ^ 32
    → cfg.dscp < 2 ^ 32
    → cfg.flags < 2 ^ 32
    → (value : List ℕ) × (set_ts_config (pos cfg.priority) (pos cfg.dscp) (pos cfg.flags)
        ≡ ok (0 ∷ 0 ∷ 0 ∷ 0 ∷ [], value))
      × (config_at value ≡ cfg)
unfolding set_ts_config
set_ts_config-config_at cfg hp hd hf =
    let p = cfg.priority in
    let d = cfg.dscp in
    let f = cfg.flags in
    (
      le_bytes 4 p ++ le_bytes 4 d ++ le_bytes 4 f ++ le_bytes 4 0,
      rw (lt→ltb p (2 ^ 32) hp, lt→ltb d (2 ^ 32) hd, lt→ltb f (2 ^ 32) hf) refl,
      config_eq cfg _ _ _ (le_value-le_bytes 4 p hp) (le_value-le_bytes 4 d hd)
          (le_value-le_bytes 4 f hf),
    )
