-- ===== src/Components.antt =====
-- Components of an artboard: their dirt and the update cycle.
pub mod Dirt
pub mod DrawOrder
