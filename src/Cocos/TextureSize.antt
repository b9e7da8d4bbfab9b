-- ===== src/Cocos/TextureSize.antt =====
-- bridges/cocos2dx/texture_size.c: the reduced size of a texture, and the source size its file records.
pub mod Defs
pub mod Sizes
mod Tests
