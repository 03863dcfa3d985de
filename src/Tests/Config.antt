-- ===== src/Tests/Config.antt =====
-- A configuration with a priority and a DSCP of its own, and with marking on.
use time_sensitive_packet.Base.{ℕ, ◌≡◌, List, [], ◌∷◌, ok, arith}
use time_sensitive_packet.Base.Int.{pos}
use time_sensitive_packet.Classifier.{TsConfig}
use time_sensitive_packet.Bpfmaps.{set_ts_config, config_at, set_ts_config-config_at}

abbrev marking : TsConfig
marking = record { priority = 6; dscp = 46; flags = 1 }

set_ts_config-config_at_example :
    (value : List ℕ) × (set_ts_config (pos 6) (pos 46) (pos 1) ≡ ok (0 ∷ 0 ∷ 0 ∷ 0 ∷ [], value))
    × (config_at value ≡ marking)
set_ts_config-config_at_example =
    set_ts_config-config_at marking (omega arith) (omega arith) (omega arith)
