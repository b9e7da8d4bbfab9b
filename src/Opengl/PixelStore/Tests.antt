-- ===== src/Opengl/PixelStore/Tests.antt =====
-- An image of 3 by 2 pixels of 3 bytes, in rows of 4 pixels that are aligned to 8 bytes.
use vita_arc.Base.{ℕ, ◌+◌, ◌*◌, ◌^◌, ◌<◌, ◌≡◌, refl, true, some, List, [], ◌∷◌, get_elem?, arith}
use vita_arc.Base.Int.{ℤ, pos}
use vita_arc.Opengl.PixelStore.Defs.{
  Name, unpack_alignment, unpack_row_length, rgb, unsigned_byte, packed, unpack, pixel_size,
  dimension,
}
use vita_arc.Opengl.PixelStore.Settings.{
  configured, last_length, last_alignment, IsPitch, IsRounded,
}
use vita_arc.Opengl.PixelStore.Rows.{unpack-rows}

-- The last call is refused.
abbrev calls : List (Name × ℤ)
calls = (unpack_alignment, pos 3) ∷ (unpack_row_length, pos 4) ∷ (unpack_alignment, pos 8) ∷ []

abbrev memory : ℕ → ℕ
memory a = a + 100

abbrev rows : List ℕ
rows =
    100 ∷ 101 ∷ 102 ∷ 103 ∷ 104 ∷ 105 ∷ 106 ∷ 107 ∷ 108 ∷ 116 ∷ 117 ∷ 118 ∷ 119 ∷ 120 ∷ 121 ∷ 122
    ∷ 123 ∷ 124 ∷ []

unpacked :
    unpack true (configured calls) (pos 3) (pos 2) rgb unsigned_byte (some memory) ≡ packed rows
unfolding unpack configured
unpacked = refl

unpack-rows_example :
    (n : ℕ) × (step : ℕ) × IsPitch (last_length calls) (dimension (pos 3)) n
    × IsRounded (n * pixel_size rgb unsigned_byte) (last_alignment calls) step
    × (get_elem? rows (1 * (dimension (pos 3) * pixel_size rgb unsigned_byte) + 8)
        ≡ some (memory (1 * step + 8)))
    × (1 * step + 8 < 2 ^ 32)
unfolding dimension pixel_size
unpack-rows_example =
    unpack-rows calls true (pos 3) (pos 2) rgb unsigned_byte memory rows 1 8 unpacked (omega arith)
      (omega arith)
