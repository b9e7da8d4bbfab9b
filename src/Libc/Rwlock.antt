-- ===== src/Libc/Rwlock.antt =====
-- bridges/libc/rwlock.c: Android rwlocks, a word of guest memory each, backed by native locks.
pub mod Defs
pub mod Table
pub mod Range
pub mod Calls
pub mod Effects
pub mod Interleave
pub mod Keeps
pub mod Safety
mod Tests
