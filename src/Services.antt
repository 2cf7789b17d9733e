-- ===== src/Services.antt =====
-- The business logic: backend/caps_dash/services.
pub mod Sessions
pub mod Timeline
pub mod Auth
pub mod Refresh
pub mod Users
pub mod Alerts
pub mod Aggregation
pub mod SlotMaps
pub mod Login
pub mod StateHistory
pub mod Retention
pub mod PlateSearch
pub mod Cameras
pub mod CameraControl
pub mod LedRing
pub mod Histories
