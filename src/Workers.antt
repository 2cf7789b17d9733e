-- ===== src/Workers.antt =====
-- The camera workers: backend/caps_dash/workers.
pub mod StateTracker
pub mod Scheduler
pub mod TickPolicy
pub mod OutcomeApplier
pub mod Supervisor
