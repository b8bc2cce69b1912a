-- ===== src/Httpp.antt =====
-- src/httpp/httpp.c: the HTTP parser. Its variables live in two trees of the vendored avl library, which
-- enter as the interface `VarTree`.
pub mod Tree
pub mod Vars
pub mod Lines
pub mod Query
pub mod Request
