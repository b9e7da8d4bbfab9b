-- ===== src/Audio/Mp3Frame/Tests.antt =====
-- Runs of bridges/audio/mp3_frame.c and the witnesses of its theorems.
use vita_arc.Base.{ℕ, ◌≡◌, some, List, [], ◌∷◌, ◌++◌, refl}
use vita_arc.Audio.Mp3Frame.Defs.{
  Sdk, Frame, header_of, fields_ok, rate_of, table_of, samples_of, size_of, channels_of,
  overhead_of, parse, read_loop, read,
}
use vita_arc.Audio.Mp3Frame.Search.{IsFirst, read-IsFirst}

abbrev sdk : Sdk
sdk = record {
  version_1 = 3;
  version_2 = 2;
  version_2_5 = 0;
  version_reserved = 1;
  max_es_size = 1792;
}

-- A frame of 128 kbit/s at 44100 Hz.
abbrev frame : Frame
frame = record {
  size = 417;
  rate = 44100;
  version = 3;
  channels = 2;
  samples = 1152;
  payload = 381;
}

abbrev header : List ℕ
header = 255 ∷ 251 ∷ 144 ∷ 0 ∷ []

parsed : parse sdk header ≡ some frame
unfolding parse header_of fields_ok size_of rate_of table_of samples_of channels_of overhead_of
parsed = refl

-- Two bytes before the frame.
abbrev stream : List ℕ
stream = 255 ∷ 0 ∷ (header ++ (7 ∷ 8 ∷ []))

searched : read sdk stream ≡ some (header, (frame, 7 ∷ 8 ∷ []))
unfolding read read_loop parse header_of fields_ok size_of rate_of table_of samples_of channels_of
    overhead_of
searched = refl

read-IsFirst_example : (n : ℕ) × IsFirst sdk stream n header frame (7 ∷ 8 ∷ [])
read-IsFirst_example = read-IsFirst sdk stream header frame (7 ∷ 8 ∷ []) searched
