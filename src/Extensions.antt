-- ===== src/Extensions.antt =====
-- extensions/: what is added to a relay's handling of messages.
pub mod Auth
pub mod RateLimiter
pub mod Search
pub mod Count
