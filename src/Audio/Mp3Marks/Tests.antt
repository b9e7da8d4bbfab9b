-- ===== src/Audio/Mp3Marks/Tests.antt =====
-- Runs of bridges/audio/mp3_marks.c and the witnesses of its theorems.
use vita_arc.Base.{ℕ, ◌≡◌, some, none, List, refl, arith}
use vita_arc.Base.Int.{pos}
use vita_arc.Base.Text.{codes, bytes_eq}
use vita_arc.Audio.Mp3Frame.Defs.{Frame, matches}
use vita_arc.Audio.Mp3Marks.Defs.{Mark, mark_get, mark_put, mark_clear, get_loop, row_fits}
use vita_arc.Audio.Mp3Marks.Lookup.{IsRing, mark_get-put}

abbrev format : Frame
format = record {
  size = 417;
  rate = 44100;
  version = 3;
  channels = 2;
  samples = 1152;
  payload = 381;
}

abbrev seek_mark : Mark
seek_mark = record { target = 9000; frame = 7; offset = pos 3000 }

abbrev song : List ℕ
song = codes "song.mp3"

nothing_yet : mark_get (some song) (pos 128) format 9000 mark_clear ≡ none
unfolding mark_get mark_clear get_loop row_fits matches bytes_eq
nothing_yet = refl

clear-IsRing : IsRing mark_clear
unfolding mark_clear
clear-IsRing = (refl, omega arith)

mark_get-put_example :
    (mark_get
        (some song)
        (pos 128)
        format
        9000
        (mark_put (some song) (pos 128) format seek_mark mark_clear)
      ≡ some seek_mark)
    × IsRing (mark_put (some song) (pos 128) format seek_mark mark_clear)
mark_get-put_example =
    mark_get-put 115 (codes "ong.mp3") (pos 128) format seek_mark mark_clear clear-IsRing
      (omega arith) nothing_yet
