-- ===== src/Audio/Mp3Marks/Defs.antt =====
-- The functions of bridges/audio/mp3_marks.c; each holds its mutex throughout. A path is the bytes before its
-- NUL.
use vita_arc.Base.{ℕ, ◌+◌, ◌%◌, Bool, false, not, ◌||◌, Option, none, some}
use vita_arc.Base.{List, [], ◌∷◌, leb, ◌==◌, if◌then◌else◌, length, set, replicate}
use vita_arc.Base.Int.{ℤ, pos, negsuc}
use vita_arc.Base.Text.{bytes_eq}
use vita_arc.Audio.Mp3Frame.Defs.{Frame, matches}

-- `mp3_mark_t`
pub record Mark : Type 0 where
  pub target : ℕ
  pub frame : ℕ
  pub offset : ℤ

-- `mp3_mark_row_t`
pub record Row : Type 0 where
  pub path : List ℕ
  pub first : ℤ
  pub format : Frame
  pub mark : Mark

-- `__rows` and `__next`
pub record Marks : Type 0 where
  pub rows : List Row
  pub next : ℕ

abbrev pub mark_count : ℕ
mark_count = 16

abbrev pub path_limit : ℕ
path_limit = 256

abbrev pub eq_ℤ : ℤ → ℤ → Bool
eq_ℤ (pos a) (pos b) = a == b
eq_ℤ (negsuc a) (negsuc b) = a == b
eq_ℤ _ _ = false

abbrev no_frame : Frame
no_frame = record { size = 0; rate = 0; version = 0; channels = 0; samples = 0; payload = 0 }

abbrev no_row : Row
no_row = record {
  path = [];
  first = pos 0;
  format = no_frame;
  mark = record { target = 0; frame = 0; offset = pos 0 };
}

-- The tests of a row.
unfoldable pub row_fits : List ℕ → ℤ → Frame → ℕ → Row → Bool
unfolding matches bytes_eq
row_fits path first format target row =
    if not (eq_ℤ row.first first) || not (row.mark.target == target)
    then false
    else not (not (bytes_eq row.path path) || not (matches row.format format))

-- The loop of `mp3_mark_get`
unfoldable pub get_loop : List ℕ → ℤ → Frame → ℕ → List Row → Option Mark
unfolding row_fits
get_loop path first format target [] = none
get_loop path first format target (row ∷ rows) =
    let rest = get_loop path first format target rows in
    if row_fits path first format target row then some row.mark else rest

-- `mp3_mark_get`, `none` for the path NULL; `target` is what the mark holds at the call.
unfoldable pub mark_get : Option (List ℕ) → ℤ → Frame → ℕ → Marks → Option Mark
unfolding get_loop
mark_get none first format target s = none
mark_get (some []) first format target s = none
mark_get (some (c ∷ cs)) first format target s = get_loop (c ∷ cs) first format target s.rows

-- `mp3_mark_put`
unfoldable pub mark_put : Option (List ℕ) → ℤ → Frame → Mark → Marks → Marks
mark_put none first format mark s = s
mark_put (some []) first format mark s = s
mark_put (some (c ∷ cs)) first format mark s =
    if leb path_limit (length (c ∷ cs)) then s else record {
      rows =
          set s.rows s.next (record { path = c ∷ cs; first = first; format = format; mark = mark });
      next = (s.next + 1) % mark_count;
    }

-- `mp3_mark_clear`
unfoldable pub mark_clear : Marks
mark_clear = record { rows = replicate 16 no_row; next = 0 }
