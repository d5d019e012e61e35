-- ===== src/Libc.antt =====
-- The C library under lib/ that the interpreter and its compiler are linked with.
pub mod Memory
pub mod Ctype
pub mod Text
pub mod Sort
pub mod Search
pub mod Number
pub mod Division
