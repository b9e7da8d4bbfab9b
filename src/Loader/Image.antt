-- ===== src/Loader/Image.antt =====
-- loader/image.c and the binding of loader/relocation.c: the mapping of a checked library and its relocations.
pub mod Defs
pub mod Relocation
pub mod Writes
pub mod Safety
pub mod Imports
pub mod Binding
pub mod Bound
mod Tests
