-- ===== src/Agent/Checks/Schedule.antt =====
-- agent/conncheck.c: which checks are made and when.
pub mod Send
pub mod Unfreeze
pub mod Tick
pub mod Progress
pub mod Started
pub mod Kept
pub mod Advance
pub mod Liveness
pub mod Related
pub mod Stop
