-- ===== src/Classifier.antt =====
-- bpf/src/ts_classifier.c and ts_common.h: the program at the egress of the host's network device,
-- which gives time-sensitive packets a priority and a DSCP.
mod Defs
pub mod Parse
pub mod Mark
pub mod Program
pub use Defs.*
