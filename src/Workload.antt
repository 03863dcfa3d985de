-- ===== src/Workload.antt =====
-- The traffic programs of workload/.
pub mod Ranks
pub mod Listener
pub mod Talker
pub mod Flood
pub mod Sink
