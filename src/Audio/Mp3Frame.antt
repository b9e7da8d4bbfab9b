-- ===== src/Audio/Mp3Frame.antt =====
-- bridges/audio/mp3_frame.c: MPEG layer III frame headers and the search for one in a file.
pub mod Defs
pub mod Search
mod Tests
