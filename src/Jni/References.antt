-- ===== src/Jni/References.antt =====
-- bridges/jni/references.c: the table of JNI references, local frames and pins.
pub mod Defs
pub mod Frames
pub mod Table
pub mod Creation
pub mod Deletion
pub mod Popping
pub mod Invariant
pub mod Collection
mod Tests
