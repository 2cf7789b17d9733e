-- ===== src/Security.antt =====
-- Access control: backend/caps_dash/security.
pub mod RateLimiter
pub mod Access
