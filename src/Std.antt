-- ===== src/Std.antt =====
-- What the code uses of Rust's standard library.
pub mod Words
pub mod Text
pub mod Sort
pub mod Search
pub mod Parse
