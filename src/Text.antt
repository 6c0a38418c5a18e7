-- ===== src/Text.antt =====
-- src/text.
pub mod Utf
