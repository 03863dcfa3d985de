-- ===== src/Stats.antt =====
-- analysis/tsn_analysis/stats.py: effect sizes, bootstrap intervals and their comparison.
pub mod Effect
pub mod Bootstrap
pub mod Compare
