-- ===== src/Android/AssetCache.antt =====
-- android/asset_cache.c: the cache of the names in the asset directories.
pub mod Defs
pub mod Refinement
pub mod Slots
mod Tests
