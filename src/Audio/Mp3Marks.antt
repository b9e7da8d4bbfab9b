-- ===== src/Audio/Mp3Marks.antt =====
-- bridges/audio/mp3_marks.c: the ring of remembered seek positions.
pub mod Defs
pub mod Lookup
mod Tests
