-- ===== src/Audio/Mp3Frame/Defs.antt =====
-- The functions of bridges/audio/mp3_frame.c. The numbers of psp2/audiodec.h are a parameter.
use Prim.Native.Nat.{bit_and}
use vita_arc.Base.{
  ℕ, ◌+◌, ◌-◌, ◌*◌, ◌/◌, ◌%◌, ◌^◌, Bool, false, not, ◌&&◌, ◌||◌, Option, none, some,
}
use vita_arc.Base.{List, [], ◌∷◌, ◌++◌, ltb, ◌==◌, if◌then◌else◌, get_or, drop}

-- `SCE_AUDIODEC_MP3_MPEG_VERSION_*` and `SCE_AUDIODEC_MP3_MAX_ES_SIZE`
pub record Sdk : Type 0 where
  pub version_1 : ℕ
  pub version_2 : ℕ
  pub version_2_5 : ℕ
  pub version_reserved : ℕ
  pub max_es_size : ℕ

-- `mp3_frame_t`
pub record Frame : Type 0 where
  pub size : ℕ
  pub rate : ℕ
  pub version : ℕ
  pub channels : ℕ
  pub samples : ℕ
  pub payload : ℕ

abbrev mpeg1 : List ℕ
mpeg1 = 0 ∷ 32 ∷ 40 ∷ 48 ∷ 56 ∷ 64 ∷ 80 ∷ 96 ∷ 112 ∷ 128 ∷ 160 ∷ 192 ∷ 224 ∷ 256 ∷ 320 ∷ 0 ∷ []

abbrev mpeg2 : List ℕ
mpeg2 = 0 ∷ 8 ∷ 16 ∷ 24 ∷ 32 ∷ 40 ∷ 48 ∷ 56 ∷ 64 ∷ 80 ∷ 96 ∷ 112 ∷ 128 ∷ 144 ∷ 160 ∷ 0 ∷ []

abbrev pub rates : List ℕ
rates = 44100 ∷ 48000 ∷ 32000 ∷ []

-- The four bytes as a big-endian number.
unfoldable pub header_of : List ℕ → ℕ
header_of bytes =
    get_or bytes 0 0 * 2 ^ 24
    + (get_or bytes 1 0 * 2 ^ 16 + (get_or bytes 2 0 * 2 ^ 8 + get_or bytes 3 0))

abbrev pub version_field : ℕ → ℕ
version_field header = header / 2 ^ 19 % 4

abbrev pub layer_field : ℕ → ℕ
layer_field header = header / 2 ^ 17 % 4

abbrev pub bitrate_field : ℕ → ℕ
bitrate_field header = header / 2 ^ 12 % 16

abbrev pub rate_field : ℕ → ℕ
rate_field header = header / 2 ^ 10 % 4

abbrev padding_field : ℕ → ℕ
padding_field header = header / 2 ^ 9 % 2

-- The tests of the sync word and of the fields.
unfoldable pub fields_ok : Sdk → ℕ → Bool
fields_ok sdk header =
    bit_and header 4292870144 == 4292870144
    && (not (version_field header == sdk.version_reserved || not (layer_field header == 1))
        && not
            (bitrate_field header == 0 || (bitrate_field header == 15 || rate_field header == 3)))

-- The rate and the table of bit rates after the switch on the version.
unfoldable pub rate_of : Sdk → ℕ → ℕ → ℕ
rate_of sdk version rate =
    if version == sdk.version_2
    then rate / 2
    else if version == sdk.version_2_5
    then rate / 4
    else rate

unfoldable pub table_of : Sdk → ℕ → List ℕ
table_of sdk version =
    if version == sdk.version_2 || version == sdk.version_2_5 then mpeg2 else mpeg1

unfoldable pub samples_of : Sdk → ℕ → ℕ
samples_of sdk version = if version == sdk.version_1 then 1152 else 576

unfoldable pub size_of : Sdk → ℕ → ℕ
unfolding rate_of table_of samples_of
size_of sdk header =
    let version = version_field header in
    (samples_of sdk version
        / 8
        * get_or (table_of sdk version) (bitrate_field header) 0
        * 1000
        % 2 ^ 32
        / rate_of sdk version (get_or rates (rate_field header) 0)
      + padding_field header)
    % 2 ^ 32

unfoldable pub channels_of : ℕ → ℕ
channels_of header = if header / 2 ^ 6 % 4 == 3 then 1 else 2

-- The bytes of the header, the side information and the checksum.
unfoldable pub overhead_of : Sdk → ℕ → ℕ
unfolding channels_of
overhead_of sdk header =
    4
    + (if not (version_field header == sdk.version_1)
        then (if channels_of header == 1 then 9 else 17)
        else if channels_of header == 1
        then 17
        else 32)
    + (if not (bit_and header 65536 == 0) then 0 else 2)

-- `mp3_frame_parse`; after a failure the caller does not read what it wrote.
unfoldable pub parse : Sdk → List ℕ → Option Frame
unfolding header_of fields_ok rate_of samples_of size_of channels_of overhead_of
parse sdk bytes =
    let header = header_of bytes in
    let size = size_of sdk header in
    let overhead = overhead_of sdk header in
    if not (fields_ok sdk header)
    then none
    else if ltb size 4 || ltb sdk.max_es_size size
    then none
    else some (record {
      size = size;
      rate = rate_of sdk (version_field header) (get_or rates (rate_field header) 0);
      version = version_field header;
      channels = channels_of header;
      samples = samples_of sdk (version_field header);
      payload = if ltb overhead size then size - overhead else 0;
    })

-- The loop of `mp3_frame_read` on the bytes that the file still has: the header, its frame and the bytes left.
unfoldable pub read_loop : Sdk → List ℕ → List ℕ → Option (List ℕ × (Frame × List ℕ))
unfolding parse
read_loop sdk header [] = elim (parse sdk header) [ some f ↦ some (header, (f, [])) | none ↦ none ]
read_loop sdk header (b ∷ bs) =
    let rest = read_loop sdk (drop 1 header ++ (b ∷ [])) bs in
    elim (parse sdk header) [ some f ↦ some (header, (f, b ∷ bs)) | none ↦ rest ]

-- `mp3_frame_read`; `fread` fails on fewer than four bytes.
unfoldable pub read : Sdk → List ℕ → Option (List ℕ × (Frame × List ℕ))
unfolding read_loop
read sdk (a ∷ b ∷ c ∷ d ∷ bytes) = read_loop sdk (a ∷ b ∷ c ∷ d ∷ []) bytes
read sdk bytes = none

-- `mp3_frame_matches`
unfoldable pub matches : Frame → Frame → Bool
matches frame format =
    if not (frame.version == format.version) || not (frame.rate == format.rate)
    then false
    else frame.channels == format.channels
