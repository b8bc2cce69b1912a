-- ===== src/Source.antt =====
-- src/source.c and src/auth.c: the sources of streams and their listeners.
pub mod Mounts
pub mod Listeners
pub mod Queue
pub mod Lifecycle
