-- ===== src/Jni/Descriptor.antt =====
-- bridges/jni/descriptor.c: the parser of JNI type and method descriptors.
pub mod Defs
pub mod Print
pub mod Signature
mod Tests
