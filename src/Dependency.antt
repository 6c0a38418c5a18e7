-- ===== src/Dependency.antt =====
-- The order in which an artboard updates its components.
pub mod Sorter
