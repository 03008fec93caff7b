-- ===== src/System.antt =====
-- The service as a whole.
pub mod Invariant
pub mod Steps
pub mod Authority
pub mod Safety
pub mod Trail
mod Frames
