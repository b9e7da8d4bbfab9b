-- ===== src/Libc/Once.antt =====
-- bridges/libc/once.c: `pthread_once` on a 32-bit guest word.
pub mod Defs
pub mod Interleave
pub mod Loop
pub mod Keeps
pub mod Safety
mod Tests
