-- ===== src/Agent.antt =====
-- The ICE agent: agent/*.c.
pub mod Candidate
pub mod Address
pub mod Fifo
pub mod Tcp
pub mod Checks
mod Tests
