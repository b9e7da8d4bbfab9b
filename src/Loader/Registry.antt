-- ===== src/Loader/Registry.antt =====
-- loader.c: the table of the loaded libraries, their exports and their lives.
pub mod Defs
pub mod Symbols
pub mod Unwind
pub mod Life
pub mod Release
pub mod Slots
pub mod Invariant
pub mod Outcomes
pub mod Steps
pub mod Freeing
mod Tests
