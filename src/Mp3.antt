-- ===== src/Mp3.antt =====
-- src/format_mp3.c: streams with inline metadata.
pub mod Filter
pub mod Listener
pub mod Title
