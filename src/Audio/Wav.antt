-- ===== src/Audio/Wav.antt =====
-- audio/wav.c: the WAV files.
pub mod Defs
pub mod Bounds
pub mod Scanning
mod Tests
