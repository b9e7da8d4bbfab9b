-- ===== src/Audio/Mp3Marks/Lookup.antt =====
-- What the lookup of bridges/audio/mp3_marks.c finds.
use vita_arc.Base.{ℕ, zero, suc, ◌≡◌, ◌<◌, inl, inr, true, false, none, some}
use vita_arc.Base.{
  List, [], ◌∷◌, leb, length, set, arith, refl, ◌∙◌, Bool-cases, length-set, none≢some, sym,
}
use vita_arc.Base.Int.{ℤ, pos, negsuc}
use vita_arc.Base.Text.{bytes_eq}
use vita_arc.Audio.Mp3Frame.Defs.{Frame, matches}
use vita_arc.Audio.Mp3Marks.Defs.{
  Mark, Row, Marks, mark_count, path_limit, eq_ℤ, row_fits, get_loop, mark_get, mark_put,
}

eq_ℤ_self : (a : ℤ) → eq_ℤ a a ≡ true
eq_ℤ_self (pos a) = ground arith
eq_ℤ_self (negsuc a) = ground arith

bytes_eq_self : (xs : List ℕ) → bytes_eq xs xs ≡ true
unfolding bytes_eq
bytes_eq_self [] = refl
bytes_eq_self (x ∷ xs) = ground (arith, bytes_eq_self xs)

matches_self : (f : Frame) → matches f f ≡ true
unfolding matches
matches_self f = ground arith

row_fits_self :
    (path : List ℕ) (first : ℤ) (format : Frame) (mark : Mark)
    → row_fits path first format mark.target
        (record { path = path; first = first; format = format; mark = mark })
      ≡ true
unfolding row_fits
row_fits_self path first format mark =
    ground (arith, eq_ℤ_self first, bytes_eq_self path, matches_self format)

-- A ring of sixteen rows and the place of the next one.
abbrev pub IsRing : Marks → Type 0
IsRing s = (length s.rows ≡ mark_count) × (s.next < mark_count)

some_first :
    (path : List ℕ) (first : ℤ) (format : Frame) (target : ℕ) (row : Row) (rows : List Row)
    → row_fits path first format target row ≡ true
    → get_loop path first format target (row ∷ rows) ≡ none
    → ⊥
unfolding get_loop
some_first path first format target row rows f e =
    none≢some row.mark (sym e ∙ rw (get_loop, f) refl)

rest_none :
    (path : List ℕ) (first : ℤ) (format : Frame) (target : ℕ) (row : Row) (rows : List Row)
    → row_fits path first format target row ≡ false
    → get_loop path first format target (row ∷ rows) ≡ none
    → get_loop path first format target rows ≡ none
unfolding get_loop
rest_none path first format target row rows f e = sym (rw (get_loop, f) refl) ∙ e

get_loop-set :
    (path : List ℕ) (first : ℤ) (format : Frame) (mark : Mark) (rows : List Row) (n : ℕ)
    → n < length rows
    → get_loop path first format mark.target rows ≡ none
    → get_loop path first format mark.target
        (set rows n (record { path = path; first = first; format = format; mark = mark }))
      ≡ some mark
unfolding get_loop
get_loop-set path first format mark [] n h e = absurd (omega arith)
get_loop-set path first format mark (row ∷ rows) zero h e =
    rw (row_fits_self path first format mark) refl
get_loop-set path first format mark (row ∷ rows) (suc n) h e =
    elim (Bool-cases (row_fits path first format mark.target row)) [
      | inl f ↦ absurd (some_first path first format mark.target row rows f e)
      | inr f ↦ rw f (
          get_loop-set path first format mark rows n (omega arith)
            (rest_none path first format mark.target row rows f e))
    ]

-- A mark that was put is found again, if the path is neither empty nor too long and no row of the ring had
-- its key before; and the ring stays a ring.
pub mark_get-put :
    (c : ℕ) (cs : List ℕ) (first : ℤ) (format : Frame) (mark : Mark) (s : Marks)
    → IsRing s
    → length (c ∷ cs) < path_limit
    → mark_get (some (c ∷ cs)) first format mark.target s ≡ none
    → (mark_get
          (some (c ∷ cs))
          first
          format
          mark.target
          (mark_put (some (c ∷ cs)) first format mark s)
        ≡ some mark)
      × IsRing (mark_put (some (c ∷ cs)) first format mark s)
unfolding mark_get mark_put
mark_get-put c cs first format mark s r h e =
    rw (mark_put, short)
      (
        get_loop-set (c ∷ cs) first format mark s.rows s.next (omega (arith, r.0, r.1)) e,
        (
          length-set s.rows s.next
                (record { path = c ∷ cs; first = first; format = format; mark = mark })
              ∙ r.0,
          omega arith,
        ),
      )
  where
    short : leb path_limit (length (c ∷ cs)) ≡ false
    short = ground arith
