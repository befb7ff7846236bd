-- ===== src/Launches.antt =====
-- Launch history, src/PcPulse.Service/src/launches.rs.
pub mod Paths
pub mod Model
pub mod Tracker
pub mod Joiner
pub mod Groups
