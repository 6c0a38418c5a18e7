-- ===== src/Math.antt =====
-- Geometry: paths.
pub mod RawPath
