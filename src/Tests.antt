-- ===== src/Tests.antt =====
-- Runs on concrete inputs, and the theorems at inputs that meet their hypotheses.
mod Core
mod Dirt
mod DrawOrder
mod Dependency
mod Animation
mod Layer
mod RawPath
mod Stack
mod Header
mod File
mod Misc
mod Listeners
mod Blend
