-- ===== src/Std.antt =====
-- What the components use of Rust's standard library on text and lists.
pub mod Utf8
pub mod Sort
pub mod Lossy
pub mod Text
