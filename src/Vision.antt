-- ===== src/Vision.antt =====
-- The parking vision domain: backend/caps_dash/vision/domain.
pub mod States
pub mod VoteFilter
pub mod Geometry
pub mod Assignment
pub mod SlotDetections
pub mod Detectors
pub mod RtspSource
mod Tests
