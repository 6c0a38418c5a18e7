-- ===== src/Importers.antt =====
-- src/importers.
pub mod Assets
pub mod Stack
pub mod Header
pub mod File
