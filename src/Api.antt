-- ===== src/Api.antt =====
-- The central API (api/src/vms).
pub mod Quota
pub mod Ingest
pub mod Roles
pub mod Errors
pub mod Camera
pub mod EdgeDb
pub mod Activation
pub mod Schedule
pub mod Pagination
pub mod Alpr
pub mod EventBus
pub mod Notifications
pub mod EventClips
