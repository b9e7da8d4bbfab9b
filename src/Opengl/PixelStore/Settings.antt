-- ===== src/Opengl/PixelStore/Settings.antt =====
-- What the calls that set the parameters of unpacking leave, against the values that were set last.
use vita_arc.Base.{ℕ, ◌+◌, ◌-◌, ◌*◌, ◌/◌, ◌≤◌, ◌<◌, ◌≡◌, ◌≢◌, ◌⊎◌, inl, inr, refl, ◌||◌}
use vita_arc.Base.{List, [], ◌∷◌, ◌==◌, if◌then◌else◌, arith}
use vita_arc.Base.Int.{ℤ, pos, negsuc}
use vita_arc.Opengl.PixelStore.Defs.{
  PixelStore, Name, unpack_alignment, unpack_row_length, other_name, pixel_store_i,
  reset_pixel_store, row_pixels, stride,
}

-- The parameters after calls of bridge_gl_pixel_store_i, the newest first.
unfoldable pub configured : List (Name × ℤ) → PixelStore
unfolding pixel_store_i
configured [] = reset_pixel_store
configured ((name, value) ∷ cs) = (pixel_store_i name value (configured cs)).1

-- The row length that was set last, by a call with a value that is not negative; 0 if there is none.
abbrev pub last_length : List (Name × ℤ) → ℕ
last_length [] = 0
last_length ((unpack_row_length, pos v) ∷ cs) = v
last_length ((name, value) ∷ cs) = last_length cs

-- The alignment that was set last, by a call with 1, 2, 4 or 8; 4 if there is none.
abbrev pub last_alignment : List (Name × ℤ) → ℕ
last_alignment [] = 4
last_alignment ((unpack_alignment, pos v) ∷ cs) =
    if v == 1 || v == 2 || v == 4 || v == 8 then v else last_alignment cs
last_alignment ((name, value) ∷ cs) = last_alignment cs

configured-last :
    (cs : List (Name × ℤ))
    → ((configured cs).row_length ≡ last_length cs)
      × ((configured cs).alignment ≡ last_alignment cs)
unfolding configured pixel_store_i
configured-last [] = (refl, refl)
configured-last ((unpack_alignment, pos v) ∷ cs) = ground (arith, configured-last cs)
configured-last ((unpack_alignment, negsuc v) ∷ cs) = configured-last cs
configured-last ((unpack_row_length, pos v) ∷ cs) = (refl, (configured-last cs).1)
configured-last ((unpack_row_length, negsuc v) ∷ cs) = configured-last cs
configured-last ((other_name, v) ∷ cs) = configured-last cs

last_alignment-cases :
    (cs : List (Name × ℤ))
    → (last_alignment cs ≡ 1)
      ⊎ (last_alignment cs ≡ 2)
      ⊎ (last_alignment cs ≡ 4)
      ⊎ (last_alignment cs ≡ 8)
last_alignment-cases [] = inr (inr (inl refl))
last_alignment-cases ((unpack_alignment, pos v) ∷ cs) = ground (arith, last_alignment-cases cs)
last_alignment-cases ((unpack_alignment, negsuc v) ∷ cs) = last_alignment-cases cs
last_alignment-cases ((unpack_row_length, v) ∷ cs) = last_alignment-cases cs
last_alignment-cases ((other_name, v) ∷ cs) = last_alignment-cases cs

-- The least multiple of an alignment that is not below a size.
abbrev pub IsRounded : ℕ → ℕ → ℕ → Type 0
IsRounded size alignment step =
    ((m : ℕ) × (step ≡ m * alignment)) × (size ≤ step) × (step < size + alignment)

round_up : (x a : ℕ) → (a ≡ 1) ⊎ (a ≡ 2) ⊎ (a ≡ 4) ⊎ (a ≡ 8) → IsRounded x a ((x + a - 1) / a * a)
round_up x a h = (((x + a - 1) / a, refl), rounded.0, rounded.1)
  where
    rounded : (x ≤ (x + a - 1) / a * a) × ((x + a - 1) / a * a < x + a)
    rounded = elim h [
      | inl e ↦ rw e (omega arith, omega arith)
      | inr (inl e) ↦ rw e (omega arith, omega arith)
      | inr (inr (inl e)) ↦ rw e (omega arith, omega arith)
      | inr (inr (inr e)) ↦ rw e (omega arith, omega arith)
    ]

-- The pixels from one row to the next: the row length that was set last, or the width if that is 0.
abbrev pub IsPitch : ℕ → ℕ → ℕ → Type 0
IsPitch length width n = ((length ≡ 0) × (n ≡ width)) ⊎ ((length ≢ 0) × (n ≡ length))

pub stride-IsRounded :
    (cs : List (Name × ℤ)) (width size : ℕ)
    → (n : ℕ) × IsPitch (last_length cs) width n
      × IsRounded (n * size) (last_alignment cs) (stride (configured cs) width size)
unfolding stride row_pixels
stride-IsRounded cs width size =
    let (l, a) = configured-last cs in
    let n = row_pixels (configured cs) width in
    (
      n,
      ground (arith, l),
      rw (stride, a) (round_up (n * size) (last_alignment cs) (last_alignment-cases cs)),
    )
