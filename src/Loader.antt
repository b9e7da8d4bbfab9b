-- ===== src/Loader.antt =====
-- The ELF loader: src/loader.c, src/loader and the layouts of src/elf.h.
pub mod Elf
mod Sample
pub mod Validation
pub mod Image
pub mod Registry
