-- ===== src/Audio/Wav/Tests.antt =====
-- A file of one channel, 8 bits and four samples at 2 Hz, and one that the program does not expect.
use vita_arc.Base.{
  ℕ, ◌+◌, ◌/◌, ◌^◌, ◌≤◌, ◌<◌, ◌≡◌, ◌⊎◌, refl, Bool, true, some, List, [], ◌∷◌, ◌++◌, length, inl,
  inr, ap, ◌%◌, arith,
}
use vita_arc.Base.Text.{codes}
use vita_arc.Audio.Wav.Defs.{
  WavFmt, no_scan, read_u32, scan, is_playable, wav_load, position, sample_offset, sample_channel,
  output_sample, output_frames, output_bytes, float_sample,
}
use vita_arc.Audio.Wav.Bounds.{output-position_fits, output_sample-between}
use vita_arc.Audio.Wav.Scanning.{IsChunk, start, after, scan_fuel}

abbrev file : List ℕ
file =
    codes "RIFF"
    ++ (40 ∷ 0 ∷ 0 ∷ 0 ∷ [])
    ++ codes "WAVEfmt "
    ++ (16 ∷ 0 ∷ 0 ∷ 0 ∷ 1 ∷ 0 ∷ 1 ∷ 0 ∷ 2 ∷ 0 ∷ 0 ∷ 0 ∷ 2 ∷ 0 ∷ 0 ∷ 0 ∷ 1 ∷ 0 ∷ 8 ∷ 0 ∷ [])
    ++ codes "data"
    ++ (4 ∷ 0 ∷ 0 ∷ 0 ∷ 0 ∷ 100 ∷ 50 ∷ 200 ∷ [])

abbrev given : ℕ → Bool
given n = true

abbrev convert : ℕ → ℕ
convert bits = 0

abbrev format : WavFmt
format = record { format = 1; channels = 1; sample_rate = 2; block_align = 1; bits_per_sample = 8 }

loaded :
    wav_load 6 given file 3
    ≡ some
        (0 ∷ 0 ∷ 17066 ∷ 17066 ∷ 21334 ∷ 21334 ∷ 12800 ∷ 12800 ∷ 38400 ∷ 38400 ∷ 51200 ∷ 51200 ∷ [])
unfolding wav_load
loaded = refl

-- The chunks of the file: the format, the samples, and the end.
chunks_are : (p : ℕ) → IsChunk file 12 p → (p ≡ 12) ⊎ (p ≡ 36) ⊎ (p ≡ 48)
unfolding read_u32
chunks_are p start = inl refl
chunks_are _ (after {p = p} c l) = elim (chunks_are p c) [
  | inl e ↦ inr (inl (ap (λ q. q + 8 + read_u32 file (q + 4) + read_u32 file (q + 4) % 2) e))
  | inr (inl e) ↦ inr (inr (ap (λ q. q + 8 + read_u32 file (q + 4) + read_u32 file (q + 4) % 2) e))
  | inr (inr e) ↦ omega (arith, e, l)
]

sizes_small : (p : ℕ) → IsChunk file 12 p → p + 8 ≤ length file → read_u32 file (p + 4) < 2 ^ 31
unfolding read_u32
sizes_small p c l = elim (chunks_are p c) [
  | inl e ↦ rw e (omega arith)
  | inr (inl e) ↦ rw e (omega arith)
  | inr (inr e) ↦ omega (arith, e, l)
]

scan_fuel_example : scan (6 + 9) given file 12 no_scan ≡ scan 6 given file 12 no_scan
scan_fuel_example = scan_fuel 6 9 12 given file no_scan sizes_small (omega arith)

floats :
    (float_sample 0x3f000000 ≡ 49152)
    × (float_sample 0xbe800000 ≡ 24576)
    × (float_sample 0xff800000 ≡ 0)
unfolding float_sample
floats = (refl, refl, refl)

output-position_fits_example :
    let p = position 3 format (4 / 1) 5 in
    (sample_offset format p.0 1 + 8 / 8 ≤ 4) × (sample_offset format p.2 1 + 8 / 8 ≤ 4)
unfolding is_playable
output-position_fits_example = output-position_fits 3 4 5 1 format refl (omega arith) (omega arith)

abbrev samples : List ℕ
samples = 0 ∷ 100 ∷ 50 ∷ 127 ∷ []

output_sample-between_example :
    let p = position 3 format 4 1 in
    let first = sample_channel convert samples p.0 format 0 in
    let second = sample_channel convert samples p.2 format 0 in
    let v = output_sample convert 3 samples format 4 1 0 in
    ((first ≤ v) × (v ≤ second)) ⊎ ((second ≤ v) × (v ≤ first))
output_sample-between_example =
    output_sample-between convert 3 4 1 0 samples format (omega arith) (omega arith)

-- At a rate of 1 Hz, 22370 samples resampled to 48 kHz are 2 ^ 30 + 18176 frames; the size of their output wraps.
abbrev slow : WavFmt
slow = record format { sample_rate = 1 }

wrapped : (output_frames 48000 slow 22370 ≡ 1073760000) × (output_bytes 1073760000 ≡ 72704)
unfolding output_frames output_bytes
wrapped = (refl, refl)

-- Two chunks of samples before the format: two buffers are allocated and one is known.
abbrev twice : List ℕ
twice =
    codes "RIFF"
    ++ (0 ∷ 0 ∷ 0 ∷ 0 ∷ [])
    ++ codes "WAVEdata"
    ++ (2 ∷ 0 ∷ 0 ∷ 0 ∷ 1 ∷ 2 ∷ [])
    ++ codes "data"
    ++ (2 ∷ 0 ∷ 0 ∷ 0 ∷ 3 ∷ 4 ∷ [])

lost :
    ((scan 5 given twice 12 no_scan).buffers ≡ 2)
    × ((scan 5 given twice 12 no_scan).pcm ≡ some (3 ∷ 4 ∷ []))
unfolding scan
lost = (refl, refl)
