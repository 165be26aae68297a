-- ===== src/Analytics.antt =====
-- The analytics service (analytics/src/analytics).
pub mod Outbox
pub mod DetectionCache
pub mod VmsClient
pub mod Geometry
pub mod Tracking
pub mod Intrusion
pub mod Speed
pub mod Face
pub mod Orchestrator
