-- ===== src/Cocos.antt =====
-- The cocos2dx bridges: src/bridges/cocos2dx.
pub mod TextureSize
