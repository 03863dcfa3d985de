-- ===== src/Metrics.antt =====
-- analysis/tsn_analysis/metrics.py: loss, DSCP histograms, percentiles and jitter of one run.
pub mod Loss
pub mod Dscp
pub mod Distribution
