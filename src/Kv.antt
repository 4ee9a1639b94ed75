-- ===== src/Kv.antt =====
-- kv/: the wrapper around lmdb, and the scanners over its trees.
pub mod Lmdb
pub mod Scanner
