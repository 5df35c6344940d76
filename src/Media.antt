-- ===== src/Media.antt =====
-- The media gateway: crates/rack_ai_media/src.
pub mod Throttle
pub mod Access
pub mod Sessions
