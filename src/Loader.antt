-- ===== src/Loader.antt =====
-- peloader.c: `LdrProcessRelocationBlock` and `load_pe`.
pub mod Bytes
pub mod Relocation
pub mod Header
pub mod Steps
pub mod Sections
pub mod Load
