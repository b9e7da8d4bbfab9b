-- ===== src/Opengl.antt =====
-- The OpenGL bridges: src/bridges/opengl.
pub mod PixelStore
