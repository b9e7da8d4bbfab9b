-- ===== src/Android.antt =====
-- The Android bridges: src/bridges/android.
pub mod AssetCache
