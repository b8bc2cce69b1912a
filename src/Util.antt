-- ===== src/Util.antt =====
-- src/util.c: the text utilities that requests and headers pass through.
pub mod Url
pub mod Path
pub mod Base64
pub mod Dict
pub mod Headers
pub mod ReadHeader
