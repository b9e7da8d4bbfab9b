-- ===== src/Audio.antt =====
-- The audio bridges: src/bridges/audio.
pub mod Mp3Frame
pub mod Mp3Marks
pub mod Wav
