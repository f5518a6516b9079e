-- ===== src/Stun.antt =====
-- The STUN library: stun/*.c.
pub mod Types
pub mod Bytes
pub mod MessageType
pub mod Message
pub mod Values
pub mod Validate
pub mod Crc
pub mod Timer
pub mod Sockaddr
pub mod Unknowns
pub mod Hmac
pub mod Agent
mod Tests
