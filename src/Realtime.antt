-- ===== src/Realtime.antt =====
-- The live view: backend/caps_dash/realtime.
pub mod BroadcastHub
pub mod FrameProtocol
pub mod Handshake
pub mod Heartbeat
