-- ===== src/Audio/Wav/Bounds.antt =====
-- The resampling reads inside the samples and stays between them.
use vita_arc.Base.{ℕ, suc, ◌+◌, ◌-◌, ◌*◌, ◌/◌, ◌≤◌, ◌<◌, ◌≡◌, ◌⊎◌, inl, inr, true}
use vita_arc.Base.{List, ◌==◌, if◌then◌else◌, arith}
use native.Mathlib.Nat.{
  div-mul-le_self, mul-le-mul_right, mul-le-mul_left, div-lt_iff_lt-mul, le-div_iff_mul-le, mod-lt,
  suc-mul,
}
use vita_arc.Audio.Wav.Defs.{
  WavFmt, sample_offset, sample_channel, is_playable, position, interpolate, output_sample,
}

-- The bytes of a sample.
abbrev width : WavFmt → ℕ
width f = f.bits_per_sample / 8

playable_parts :
    (f : WavFmt) (size : ℕ)
    → is_playable f size ≡ true
    → ((f.channels ≡ 1) ⊎ (f.channels ≡ 2))
      × (1 ≤ width f)
      × (f.block_align ≡ width f * f.channels)
      × (f.block_align ≤ size)
unfolding is_playable
playable_parts f size h = (ground arith, ground arith, ground arith, ground arith)

align_parts :
    (f : WavFmt) (channel : ℕ)
    → channel < 2
    → (f.channels ≡ 1) ⊎ (f.channels ≡ 2)
    → f.block_align ≡ width f * f.channels
    → (if f.channels == 1 then 0 else channel) * width f + width f ≤ f.block_align
align_parts f channel c n a = elim n [
  | inl e ↦ ground (arith, e, a)
  | inr e ↦ ground (arith, e, a, suc-mul channel (width f), mul-le-mul_right (width f) c)
]

offset_fits :
    (f : WavFmt) (size frame channel : ℕ)
    → is_playable f size ≡ true
    → frame < size / f.block_align
    → channel < 2
    → sample_offset f frame channel + width f ≤ size
unfolding sample_offset
offset_fits f size frame channel h b c =
    let (n, w, a, s) = playable_parts f size h in
    let own = align_parts f channel c n a in
    let rows = mul-le-mul_right f.block_align b in
    let all = div-mul-le_self size f.block_align in
    omega (arith, own, rows, all, suc-mul frame f.block_align)

position_parts :
    (rate frames i : ℕ) (f : WavFmt)
    → 1 ≤ frames
    → 1 ≤ rate
    → let p = position rate f frames i in (p.0 < frames) × (p.2 < frames) × (p.1 < rate)
unfolding position
position_parts rate frames i f h r = ground (arith, mod-lt (i * f.sample_rate) {m = rate} r)

weaken : {a b : ℕ} → a < b → a ≤ b
weaken h = omega arith

part_bound : (d fraction rate : ℕ) → fraction < rate → d * fraction / rate ≤ d
part_bound d fraction rate h = omega (
  arith,
  (div-lt_iff_lt-mul {k = rate} {x = d * fraction} {y = suc d} (omega arith)).1
      (omega (arith, h, suc-mul d rate, mul-le-mul_left d (weaken h))),
)

interpolate_between :
    (first second fraction rate : ℕ)
    → fraction < rate
    → let v = interpolate first second fraction rate in
      ((first ≤ v) × (v ≤ second)) ⊎ ((second ≤ v) × (v ≤ first))
unfolding interpolate
interpolate_between first second fraction rate h = ground (
  arith,
  part_bound (second - first) fraction rate h,
  part_bound (first - second) fraction rate h,
)

some_frames : (f : WavFmt) (size : ℕ) → is_playable f size ≡ true → 1 ≤ size / f.block_align
some_frames f size h =
    let (n, w, a, s) = playable_parts f size h in
    let positive : 1 ≤ f.block_align = elim n [
      | inl e ↦ ground (arith, a, e, w)
      | inr e ↦ ground (arith, a, e, w)
    ] in
    (le-div_iff_mul-le {k = f.block_align} {x = 1} {y = size} positive).1 (omega (arith, s))

-- In a file that vita_wav_load accepts, the two samples that each output sample is made of lie inside the buffer
-- of the file's samples, whatever the output rate.
pub output-position_fits :
    (rate size i channel : ℕ) (f : WavFmt)
    → is_playable f size ≡ true
    → 1 ≤ rate
    → channel < 2
    → let p = position rate f (size / f.block_align) i in
      (sample_offset f p.0 channel + f.bits_per_sample / 8 ≤ size)
      × (sample_offset f p.2 channel + f.bits_per_sample / 8 ≤ size)
output-position_fits rate size i channel f h r c =
    let frames = size / f.block_align in
    let (low, high, small) = position_parts rate frames i f (some_frames f size h) r in
    (
      offset_fits f size (position rate f frames i).0 channel h low c,
      offset_fits f size (position rate f frames i).2 channel h high c,
    )

-- Each output sample lies between the two samples that it is made of, so it needs no more bits than they.
pub output_sample-between :
    (convert : ℕ → ℕ) (rate frames i channel : ℕ) (pcm : List ℕ) (f : WavFmt)
    → 1 ≤ frames
    → 1 ≤ rate
    → let p = position rate f frames i in
      let first = sample_channel convert pcm p.0 f channel in
      let second = sample_channel convert pcm p.2 f channel in
      let v = output_sample convert rate pcm f frames i channel in
      ((first ≤ v) × (v ≤ second)) ⊎ ((second ≤ v) × (v ≤ first))
unfolding output_sample
output_sample-between convert rate frames i channel pcm f h r =
    let p = position rate f frames i in
    interpolate_between (sample_channel convert pcm p.0 f channel)
      (sample_channel convert pcm p.2 f channel) p.1 rate (position_parts rate frames i f h r).2
