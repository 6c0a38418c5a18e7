-- ===== src/Animation.antt =====
-- Keyframes and state machines.
pub mod Keyframes
pub mod Layer
pub mod Listeners
pub mod Blend
