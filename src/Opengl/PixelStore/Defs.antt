-- ===== src/Opengl/PixelStore/Defs.antt =====
-- The parameters of unpacking, and `__unpack`, which packs the rows of an image for vitaGL.
use vita_arc.Base.{ℕ, zero, suc, ◌+◌, ◌-◌, ◌*◌, ◌/◌, ◌^◌, Bool, not, ◌&&◌, ◌||◌, Option, none, some}
use vita_arc.Base.{List, [], ◌∷◌, ◌++◌, ltb, ◌==◌, if◌then◌else◌}
use vita_arc.Base.Int.{ℤ, pos, negsuc}

-- `__unpack_alignment` and `__unpack_row_length`
pub record PixelStore : Type 0 where
  pub alignment : ℕ
  pub row_length : ℕ

pub data Name : Type 0 where
  unpack_alignment unpack_row_length other_name : Name

-- What a call of bridge_gl_pixel_store_i does besides: an error, nothing, or a call of glPixelStorei.
pub data Outcome : Type 0 where
  invalid_value stored forwarded : Outcome

unfoldable pub pixel_store_i : Name → ℤ → PixelStore → Outcome × PixelStore
pixel_store_i unpack_alignment (pos v) s =
    if v == 1 || v == 2 || v == 4 || v == 8
    then (stored, record s { alignment = v })
    else (invalid_value, s)
pixel_store_i unpack_alignment (negsuc v) s = (invalid_value, s)
pixel_store_i unpack_row_length (pos v) s = (forwarded, record s { row_length = v })
pixel_store_i unpack_row_length (negsuc v) s = (invalid_value, s)
pixel_store_i other_name v s = (forwarded, s)

-- bridge_gl_reset_pixel_store
abbrev pub reset_pixel_store : PixelStore
reset_pixel_store = record { alignment = 4; row_length = 0 }

-- bridge_gl_query_pixel_store
unfoldable pub query_pixel_store : Name → PixelStore → Option ℕ
query_pixel_store unpack_alignment s = some s.alignment
query_pixel_store unpack_row_length s = some s.row_length
query_pixel_store other_name s = none

pub data Format : Type 0 where
  alpha luminance luminance_alpha rgb rgba other_format : Format

pub data PixelType : Type 0 where
  unsigned_byte float short_5_6_5 short_4_4_4_4 short_5_5_5_1 other_type : PixelType

unfoldable pub components : Format → ℕ
components alpha = 1
components luminance = 1
components luminance_alpha = 2
components rgb = 3
components rgba = 4
components other_format = 0

-- `__pixel_size`
unfoldable pub pixel_size : Format → PixelType → ℕ
unfolding components
pixel_size format unsigned_byte = components format
pixel_size format float = components format * 4
pixel_size rgb short_5_6_5 = 2
pixel_size format short_5_6_5 = 0
pixel_size rgba short_4_4_4_4 = 2
pixel_size format short_4_4_4_4 = 0
pixel_size rgba short_5_5_5_1 = 2
pixel_size format short_5_5_5_1 = 0
pixel_size format other_type = 0

-- A width or a height that is unpacked, 0 for one that vitaGL is to refuse.
unfoldable pub dimension : ℤ → ℕ
dimension (pos n) = if ltb 4096 n then 0 else n
dimension (negsuc n) = 0

unfoldable pub row_pixels : PixelStore → ℕ → ℕ
row_pixels s width = if s.row_length == 0 then width else s.row_length

-- The distance of the rows; the alignment is a power of two.
unfoldable pub stride : PixelStore → ℕ → ℕ → ℕ
unfolding row_pixels
stride s width size = (row_pixels s width * size + s.alignment - 1) / s.alignment * s.alignment

-- The bytes from an address on.
unfoldable pub bytes_from : ℕ → (ℕ → ℕ) → ℕ → List ℕ
bytes_from zero memory at = []
bytes_from (suc n) memory at = memory at ∷ bytes_from n memory (at + 1)

-- The loop that copies the rows.
unfoldable pub copy_rows : ℕ → ℕ → ℕ → (ℕ → ℕ) → ℕ → List ℕ
unfolding bytes_from
copy_rows zero row_bytes step memory at = []
copy_rows (suc n) row_bytes step memory at =
    bytes_from row_bytes memory at ++ copy_rows n row_bytes step memory (at + step)

-- What `__unpack` hands on: the client's pixels, an error, or packed pixels.
pub data Source : Type 0 where
  client refused no_memory : Source
  packed : List ℕ → Source

unfoldable pub fits : ℕ → ℕ → ℕ → Bool
fits height row_bytes step =
    not (ltb ((2 ^ 32 - 1) / row_bytes) height)
    && not (ltb 1 height && ltb ((2 ^ 32 - 1 - row_bytes) / (height - 1)) step)

-- `__unpack` of the pixels at `memory`, `none` for a null pointer.
unfoldable pub unpack : Bool → PixelStore → ℤ → ℤ → Format → PixelType → Option (ℕ → ℕ) → Source
unfolding pixel_size dimension row_pixels stride copy_rows fits
unpack allocated s width height format type none = client
unpack allocated s width height format type (some memory) =
    let size = pixel_size format type in
    let w = dimension width in
    let h = dimension height in
    if size == 0 || w == 0 || h == 0
    then client
    else if ltb ((2 ^ 32 - 1 - 7) / size) (row_pixels s w)
    then refused
    else if not (fits h (w * size) (stride s w size))
    then refused
    else if stride s w size == w * size
    then client
    else if not allocated
    then no_memory
    else packed (copy_rows h (w * size) (stride s w size) memory 0)
