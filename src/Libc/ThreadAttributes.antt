-- ===== src/Libc/ThreadAttributes.antt =====
-- bridges/libc/thread_attributes.c: the 24-byte Android `pthread_attr_t` that stands in guest memory.
pub mod Defs
pub mod Calls
pub mod Convert
mod Tests
