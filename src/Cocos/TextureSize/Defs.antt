-- ===== src/Cocos/TextureSize/Defs.antt =====
-- The functions of bridges/cocos2dx/texture_size.c. `unsigned` and `size_t` have 32 bits. The bytes of a file
-- past `length` are never read; the model reads 0 there.
use Prim.Native.Nat.{bit_and, bit_xor}
use vita_arc.Base.{
  ℕ, zero, suc, ◌+◌, ◌-◌, ◌*◌, ◌/◌, ◌%◌, ◌^◌, Bool, false, not, ◌&&◌, ◌||◌, Option, none, some,
}
use vita_arc.Base.{List, [], ◌∷◌, ltb, leb, ◌==◌, if◌then◌else◌, get_or, take, drop}
use vita_arc.Base.Text.{bytes_eq, codes}

-- One halving, rounded up; sizes are far below the wrap.
abbrev pub half : ℕ → ℕ
half n = (n + 1) / 2

-- The loop of `vita_texture_small_size`, of at most `fuel` rounds.
unfoldable pub halve_loop : ℕ → ℕ → ℕ → ℕ → ℕ × ℕ
halve_loop zero limit width height = (width, height)
halve_loop (suc fuel) limit width height =
    let rest = halve_loop fuel limit (half width) (half height) in
    if ltb limit width || ltb limit height then rest else (width, height)

abbrev pub smaller : ℕ → ℕ → ℕ
smaller a b = if ltb a b then a else b

abbrev larger : ℕ → ℕ → ℕ
larger a b = if ltb b a then a else b

-- The refused sizes: a NULL pointer, an empty texture or one that is too large.
unfoldable pub is_refused_size : ℕ → ℕ → Bool
is_refused_size width height = width == 0 || (height == 0 || (ltb 16384 width || ltb 16384 height))

abbrev pub limit_of : ℕ → ℕ → ℕ
limit_of width height = if ltb (smaller width height) 64 then 4096 else 960

-- The first reduction.
abbrev pub halves_first : ℕ → ℕ → Bool
halves_first width height = leb 64 (smaller width height) && leb 256 (larger width height)

-- `vita_texture_small_size`, with the values at the pointers, `none` for NULL. Five rounds are enough.
unfoldable pub small_size : Option ℕ → Option ℕ → Option (ℕ × ℕ)
unfolding halve_loop is_refused_size
small_size none height = none
small_size (some width) none = none
small_size (some width) (some height) =
    if is_refused_size width height
    then none
    else if halves_first width height
    then some (halve_loop 5 (limit_of width height) (half width) (half height))
    else some (halve_loop 5 (limit_of width height) width height)

abbrev pub byte : List ℕ → ℕ → ℕ
byte image at = get_or image at 0

-- `__be16` and `__be32` at an offset
unfoldable pub be16 : List ℕ → ℕ → ℕ
be16 image at = byte image at * 256 + byte image (at + 1)

unfoldable be32 : List ℕ → ℕ → ℕ
be32 image at =
    byte image at * 2 ^ 24
    + (byte image (at + 1) * 2 ^ 16 + (byte image (at + 2) * 2 ^ 8 + byte image (at + 3)))

-- A round of the inner loop of `__crc32`.
abbrev crc_bit : ℕ → ℕ
crc_bit crc = bit_xor (crc / 2) (bit_and 3988292384 ((2 ^ 32 - bit_and crc 1) % 2 ^ 32))

unfoldable crc_bits : ℕ → ℕ → ℕ
crc_bits zero crc = crc
crc_bits (suc n) crc = crc_bits n (crc_bit crc)

unfoldable crc_loop : List ℕ → ℕ → ℕ
unfolding crc_bits
crc_loop [] crc = crc
crc_loop (b ∷ bs) crc = crc_loop bs (crc_bits 8 (bit_xor crc b))

-- `__crc32` of the bytes
unfoldable crc32 : List ℕ → ℕ
unfolding crc_loop
crc32 bytes = 2 ^ 32 - 1 - crc_loop bytes (2 ^ 32 - 1)

-- `memcmp` of the bytes at an offset with a constant.
abbrev pub has_at : List ℕ → ℕ → List ℕ → ℕ → Bool
has_at image at bytes n = bytes_eq (take n (drop at image)) bytes

abbrev png_magic : List ℕ
png_magic = 137 ∷ 80 ∷ 78 ∷ 71 ∷ 13 ∷ 10 ∷ 26 ∷ 10 ∷ []

abbrev pub jpeg_magic : List ℕ
jpeg_magic = 255 ∷ 216 ∷ 255 ∷ 239 ∷ 0 ∷ 14 ∷ []

-- The checks of a PNG's first chunks.
unfoldable png_ok : List ℕ → ℕ → ℕ → Bool
unfolding be32 crc32 bytes_eq
png_ok image packed_width packed_height =
    be32 image 8 == 13
    && (has_at image 12 (codes "IHDR") 4
        && (be32 image 16 == packed_width
            && (be32 image 20 == packed_height
                && (be32 image 33 == 12
                    && (has_at image 37 (codes "vaRc") 4
                        && be32 image 53 == crc32 (take 16 (drop 37 image)))))))

-- Where the record stands, if the file has one.
unfoldable pub record_offset : List ℕ → ℕ → ℕ → ℕ → Option ℕ
unfolding png_ok bytes_eq
record_offset image length packed_width packed_height =
    if leb 57 length && has_at image 0 png_magic 8
    then (if not (png_ok image packed_width packed_height) then none else some 41)
    else if leb 18 length && has_at image 0 jpeg_magic 6
    then some 6
    else none

-- Whether the record at an offset agrees with the packed size.
unfoldable pub record_ok : List ℕ → ℕ → ℕ → ℕ → Bool
unfolding be16 small_size
record_ok image at packed_width packed_height =
    elim (small_size (some (be16 image (at + 4))) (some (be16 image (at + 6)))) [
      | none ↦ false
      | some (width, height) ↦
          width == packed_width
          && (height == packed_height
              && (be16 image (at + 8) == packed_width
                  && (be16 image (at + 10) == packed_height
                      && not (
                          be16 image (at + 4) == packed_width
                          && be16 image (at + 6) == packed_height))))
    ]

-- `vita_texture_source_size`: the width and the height that it writes; `given` tells whether none of the
-- pointers is NULL.
unfoldable pub source_size : Bool → List ℕ → ℕ → ℕ → ℕ → Option (ℕ × ℕ)
unfolding record_offset record_ok bytes_eq
source_size given image length packed_width packed_height =
    if not given then none else elim (record_offset image length packed_width packed_height) [
      | none ↦ none
      | some at ↦
          if not (has_at image at (codes "VTX1") 4)
          then none
          else if not (record_ok image at packed_width packed_height)
          then none
          else some (be16 image (at + 4), be16 image (at + 6))
    ]
