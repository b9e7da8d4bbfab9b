-- ===== src/Libc.antt =====
-- The libc bridge: src/bridges/libc.
pub mod Errno
pub mod Keyed
pub mod Once
pub mod ThreadAttributes
pub mod Rwlock
