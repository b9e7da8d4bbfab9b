-- ===== src/Jni.antt =====
-- The JNI bridge: src/bridges/jni.
pub mod References
pub mod Descriptor
pub mod Heap
