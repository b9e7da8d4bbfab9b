-- ===== src/Jni/Heap.antt =====
-- bridges/jni/runtime/heap.c: the tracing heap of the JNI runtime and its monitors.
pub mod Defs
pub mod Marking
pub mod Loop
pub mod Collection
pub mod Monitors
mod Tests
