-- ===== src/Core.antt =====
-- src/core and include/rive/core: the binary format's reader and writer.
pub mod Leb
pub mod Words
pub mod Reader
pub mod Writer
