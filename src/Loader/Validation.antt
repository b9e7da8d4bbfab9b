-- ===== src/Loader/Validation.antt =====
-- loader/validation.c: what `loader_elf_check` accepts.
pub mod Defs
pub mod Sections
pub mod Segments
pub mod Checked
pub mod Ident
pub mod Entries
mod Tests
