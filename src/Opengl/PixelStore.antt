-- ===== src/Opengl/PixelStore.antt =====
-- opengl/pixel_store.c: how the rows of an image are unpacked.
pub mod Defs
pub mod Settings
pub mod Rows
mod Tests
