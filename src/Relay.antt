-- ===== src/Relay.antt =====
-- apps/relay/src: the development relay.
pub mod RateLimit
pub mod Heartbeat
pub mod Rooms
pub mod Forwarding
pub mod Reasons
pub mod Connection
