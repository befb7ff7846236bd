-- ===== src/Alerts.antt =====
-- Incidents: their quality and the notification policy (src/PcPulse.Service/src/quality.rs), their life in
-- the engine (src/PcPulse.Service/src/alerting.rs), and the shapes of growth (stats.rs).
pub mod Model
pub mod Quality
pub mod Engine
pub mod Growth
pub mod Offsets
