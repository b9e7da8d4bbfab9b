-- ===== src/Audio/Wav/Defs.antt =====
-- vita_wav_load on the bytes of a file. A sample stands with 32768 added, so that it is a number below 65536.
use vita_arc.Base.{
  ℕ, zero, suc, ◌+◌, ◌-◌, ◌*◌, ◌/◌, ◌%◌, ◌^◌, Bool, false, not, ◌&&◌, ◌||◌, Option, none, some,
}
use vita_arc.Base.{List, [], ◌∷◌, ltb, leb, ◌==◌, if◌then◌else◌, get_or, take, drop, length}
use vita_arc.Base.Text.{codes, bytes_eq}

-- `wav_fmt_t`
pub record WavFmt : Type 0 where
  pub format : ℕ
  pub channels : ℕ
  pub sample_rate : ℕ
  pub block_align : ℕ
  pub bits_per_sample : ℕ

abbrev pub byte_at : List ℕ → ℕ → ℕ
byte_at bytes i = get_or bytes i 0

unfoldable pub read_u16 : List ℕ → ℕ → ℕ
read_u16 bytes at = byte_at bytes at + 256 * byte_at bytes (at + 1)

unfoldable pub read_u32 : List ℕ → ℕ → ℕ
read_u32 bytes at =
    byte_at bytes at
    + 256 * byte_at bytes (at + 1)
    + 65536 * byte_at bytes (at + 2)
    + 16777216 * byte_at bytes (at + 3)

-- The conversion of a signed number of 16 bits, with 32768 added.
abbrev raised : ℕ → ℕ
raised v = (v + 32768) % 65536

unfoldable pub read_pcm_sample : List ℕ → ℕ → ℕ → ℕ
unfolding read_u16
read_pcm_sample pcm at bits =
    if bits == 8
    then 256 * byte_at pcm at
    else if bits == 16
    then raised (read_u16 pcm at)
    else if bits == 24
    then raised (read_u16 pcm (at + 1))
    else if bits == 32
    then raised (read_u16 pcm (at + 2))
    else 32768

-- The offset of the sample of a frame and a channel.
unfoldable pub sample_offset : WavFmt → ℕ → ℕ → ℕ
sample_offset f frame channel =
    frame * f.block_align + (if f.channels == 1 then 0 else channel) * (f.bits_per_sample / 8)

-- The conversion of the bits of a `float`: NaN is 0, what is not between -1 and 1 is clamped, and the product with
-- 32768 is exact and rounds to zero.
unfoldable pub float_sample : ℕ → ℕ
float_sample bits =
    let negative = bits / 2 ^ 31 % 2 == 1 in
    let exponent = bits / 2 ^ 23 % 256 in
    let fraction = bits % 2 ^ 23 in
    let size = (fraction + 2 ^ 23) / 2 ^ (135 - exponent) in
    if exponent == 255 && not (fraction == 0)
    then 32768
    else if leb 127 exponent
    then (if negative then 0 else 65535)
    else if exponent == 0
    then 32768
    else if negative
    then 32768 - size
    else 32768 + size

-- `convert` is the conversion of the bits of a float; vita_wav_load has `float_sample`.
unfoldable pub sample_channel : (ℕ → ℕ) → List ℕ → ℕ → WavFmt → ℕ → ℕ
unfolding sample_offset read_u32 read_pcm_sample
sample_channel convert pcm frame f channel =
    if f.format == 3
    then convert (read_u32 pcm (sample_offset f frame channel))
    else read_pcm_sample pcm (sample_offset f frame channel) f.bits_per_sample

-- What the loop over the chunks has found; `buffers` counts the buffers of samples that are not freed.
pub record Scan : Type 0 where
  pub fmt : WavFmt
  pub pcm : Option (List ℕ)
  pub buffers : ℕ

unfoldable pub read_format : List ℕ → ℕ → WavFmt
unfolding read_u16 read_u32
read_format file at = record {
  format = read_u16 file at;
  channels = read_u16 file (at + 2);
  sample_rate = read_u32 file (at + 4);
  block_align = read_u16 file (at + 12);
  bits_per_sample = read_u16 file (at + 14);
}

-- The position after a seek by a chunk's size, which the call takes as a signed number.
unfoldable pub seek : ℕ → ℕ → Option ℕ
seek at size =
    if ltb size (2 ^ 31)
    then some (at + size)
    else if leb (2 ^ 32) (at + size)
    then some (at + size - 2 ^ 32)
    else none

abbrev the_kind : List ℕ → ℕ → List ℕ
the_kind file at = take 4 (drop at file)

-- One chunk: whether it is read, and the position behind it. `allocates` is whether malloc has a size.
unfoldable pub chunk : (ℕ → Bool) → List ℕ → ℕ → Scan → Option ℕ × Scan
unfolding read_u32 read_format seek bytes_eq
chunk allocates file at s =
    let size = read_u32 file (at + 4) in
    let body = at + 8 in
    if bytes_eq (the_kind file at) (codes "fmt ")
    then (if ltb size 16 || ltb 40 size || ltb (length file) (body + size)
        then (none, s)
        else (some (body + size), record s { fmt = read_format file body }))
    else if bytes_eq (the_kind file at) (codes "data")
    then (if not (allocates size) || ltb (length file) (body + size)
        then (none, record s { pcm = none })
        else (
          some (body + size),
          record s { pcm = some (take size (drop body file)); buffers = s.buffers + 1 },
        ))
    else (seek body size, s)

abbrev pub is_found : Scan → Bool
is_found s = elim s.pcm [ none ↦ false | some pcm ↦ not (s.fmt.sample_rate == 0) ]

-- The loop over the chunks, of at most `fuel` rounds.
unfoldable pub scan : ℕ → (ℕ → Bool) → List ℕ → ℕ → Scan → Scan
unfolding chunk read_u32
scan zero allocates file at s = s
scan (suc fuel) allocates file at s =
    let c = chunk allocates file at s in
    let odd = read_u32 file (at + 4) % 2 in
    if ltb (length file) (at + 8) then s else elim c.0 [
      | none ↦ c.1
      | some next ↦ if is_found c.1 then c.1 else scan fuel allocates file (next + odd) c.1
    ]

-- The tests after the loop.
unfoldable pub is_playable : WavFmt → ℕ → Bool
is_playable f size =
    (f.format == 1 || f.format == 3)
    && (f.channels == 1 || f.channels == 2)
    && (if f.format == 3
        then f.bits_per_sample == 32
        else f.bits_per_sample == 8
          || f.bits_per_sample == 16
          || f.bits_per_sample == 24
          || f.bits_per_sample == 32)
    && f.block_align == f.bits_per_sample / 8 * f.channels
    && not (f.sample_rate == 0)
    && not (ltb size f.block_align)

unfoldable pub output_frames : ℕ → WavFmt → ℕ → ℕ
output_frames rate f frames = (frames * rate + f.sample_rate - 1) / f.sample_rate % 2 ^ 32

-- The frame for an output frame, the fraction and the frame after it.
unfoldable pub position : ℕ → WavFmt → ℕ → ℕ → ℕ × ℕ × ℕ
position rate f frames i =
    let index = i * f.sample_rate / rate % 2 ^ 32 in
    let fraction = i * f.sample_rate % rate in
    if leb frames index
    then (frames - 1, 0, frames - 1)
    else (index, fraction, if leb frames (index + 1) then index else index + 1)

-- The value between two samples; the division rounds to zero.
unfoldable pub interpolate : ℕ → ℕ → ℕ → ℕ → ℕ
interpolate first second fraction rate =
    if leb first second
    then first + (second - first) * fraction / rate
    else first - (first - second) * fraction / rate

unfoldable pub output_sample : (ℕ → ℕ) → ℕ → List ℕ → WavFmt → ℕ → ℕ → ℕ → ℕ
unfolding position interpolate sample_channel
output_sample convert rate pcm f frames i channel =
    let (index, fraction, next) = position rate f frames i in
    interpolate (sample_channel convert pcm index f channel)
      (sample_channel convert pcm next f channel) fraction rate

-- The frames from `i` on.
unfoldable pub output : (ℕ → ℕ) → ℕ → List ℕ → WavFmt → ℕ → ℕ → ℕ → List ℕ
unfolding output_sample
output convert rate pcm f frames i zero = []
output convert rate pcm f frames i (suc n) =
    output_sample convert rate pcm f frames i 0
    ∷ output_sample convert rate pcm f frames i 1
    ∷ output convert rate pcm f frames (i + 1) n

-- The size that is asked for the output.
unfoldable pub output_bytes : ℕ → ℕ
output_bytes frames = frames * 2 * 2 % 2 ^ 32

abbrev pub no_scan : Scan
no_scan = record {
  fmt = record { format = 0; channels = 0; sample_rate = 0; block_align = 0; bits_per_sample = 0 };
  pcm = none;
  buffers = 0;
}

-- vita_wav_load on a file that could be opened: the samples of the buffer. `fuel` bounds the chunks.
unfoldable pub wav_load : ℕ → (ℕ → Bool) → List ℕ → ℕ → Option (List ℕ)
unfolding scan is_playable output_frames output output_bytes float_sample bytes_eq
wav_load fuel allocates file rate =
    if rate == 0
      || ltb (length file) 12
      || not (bytes_eq (the_kind file 0) (codes "RIFF"))
      || not (bytes_eq (the_kind file 8) (codes "WAVE"))
    then none
    else (let s = scan fuel allocates file 12 no_scan in
        elim s.pcm [
          | none ↦ none
          | some pcm ↦
              let frames = length pcm / s.fmt.block_align in
              let n = output_frames rate s.fmt frames in
              if not (is_playable s.fmt (length pcm))
              then none
              else if not (allocates (output_bytes n))
              then none
              else some (output float_sample rate pcm s.fmt frames 0 n)
        ])
