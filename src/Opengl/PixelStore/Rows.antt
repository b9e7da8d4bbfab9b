-- ===== src/Opengl/PixelStore/Rows.antt =====
-- The packed rows are the client's rows.
use vita_arc.Base.{
  ℕ, zero, suc, ◌+◌, ◌-◌, ◌*◌, ◌/◌, ◌^◌, ◌≤◌, ◌<◌, ◌≡◌, inl, inr, refl, ap, ◌∙◌, Bool, true, some,
}
use vita_arc.Base.{List, [], ◌∷◌, ◌++◌, ltb, get_elem?, length, length-append, arith, Bool-cases}
use native.Mathlib.Nat.{zero-add, suc-mul, mul_comm, mul-le-mul, mul-le-mul_left, mul-div-le}
use vita_arc.Base.Int.{ℤ, pos, negsuc}
use vita_arc.Opengl.PixelStore.Settings.{
  configured, last_length, last_alignment, IsPitch, IsRounded, stride-IsRounded,
}
use vita_arc.Opengl.PixelStore.Defs.{
  PixelStore, Name, Format, PixelType, packed, alpha, luminance, luminance_alpha, rgb, rgba,
  other_format, unsigned_byte, float, short_5_6_5, short_4_4_4_4, short_5_5_5_1, other_type,
  components, pixel_size, dimension, stride, bytes_from, copy_rows, fits, unpack,
}

length-bytes_from : (n at : ℕ) (memory : ℕ → ℕ) → length (bytes_from n memory at) ≡ n
unfolding bytes_from
length-bytes_from zero at memory = refl
length-bytes_from (suc n) at memory = ap suc (length-bytes_from n (at + 1) memory)

length-copy_rows :
    (n row_bytes step at : ℕ) (memory : ℕ → ℕ)
    → length (copy_rows n row_bytes step memory at) ≡ n * row_bytes
unfolding copy_rows
length-copy_rows zero row_bytes step at memory = omega arith
length-copy_rows (suc n) row_bytes step at memory = omega (
  arith,
  length-append (bytes_from row_bytes memory at) (copy_rows n row_bytes step memory (at + step)),
  length-bytes_from row_bytes at memory,
  length-copy_rows n row_bytes step (at + step) memory,
  suc-mul n row_bytes,
)

get_elem?-bytes_from :
    (n at k : ℕ) (memory : ℕ → ℕ)
    → k < n
    → get_elem? (bytes_from n memory at) k ≡ some (memory (at + k))
unfolding bytes_from
get_elem?-bytes_from zero at k memory h = elim h [ ]
get_elem?-bytes_from (suc n) at zero memory h = ap (λ a. some (memory a)) {y = at + 0} (omega arith)
get_elem?-bytes_from (suc n) at (suc k) memory h =
    get_elem?-bytes_from n (at + 1) k memory (omega arith)
    ∙ ap (λ a. some (memory a)) {x = at + 1 + k} {y = at + suc k} (omega arith)

get_elem?-append_left :
    (xs ys : List ℕ) (k : ℕ) → k < length xs → get_elem? (xs ++ ys) k ≡ get_elem? xs k
get_elem?-append_left [] ys k h = elim h [ ]
get_elem?-append_left (x ∷ xs) ys zero h = refl
get_elem?-append_left (x ∷ xs) ys (suc k) h = get_elem?-append_left xs ys k (omega arith)

get_elem?-append_right :
    (xs ys : List ℕ) (k : ℕ) → get_elem? (xs ++ ys) (length xs + k) ≡ get_elem? ys k
get_elem?-append_right [] ys k = ap (get_elem? ys) (zero-add k)
get_elem?-append_right (x ∷ xs) ys k =
    ap (get_elem? (x ∷ xs ++ ys)) {x = suc (length xs) + k} {y = suc (length xs + k)} (omega arith)
    ∙ get_elem?-append_right xs ys k

get_elem?-copy_rows :
    (n row k row_bytes step at : ℕ) (memory : ℕ → ℕ)
    → row < n
    → k < row_bytes
    → get_elem? (copy_rows n row_bytes step memory at) (row * row_bytes + k)
      ≡ some (memory (at + row * step + k))
unfolding copy_rows
get_elem?-copy_rows zero row k row_bytes step at memory h l = elim h [ ]
get_elem?-copy_rows (suc n) zero k row_bytes step at memory h l =
    let own = bytes_from row_bytes memory at in
    let rest = copy_rows n row_bytes step memory (at + step) in
    ap (get_elem? (own ++ rest)) {x = 0 * row_bytes + k} {y = k} (omega arith)
    ∙ get_elem?-append_left own rest k (omega (arith, length-bytes_from row_bytes at memory))
    ∙ get_elem?-bytes_from row_bytes at k memory l
    ∙ ap (λ a. some (memory a)) {x = at + k} {y = at + 0 * step + k} (omega arith)
get_elem?-copy_rows (suc n) (suc row) k row_bytes step at memory h l =
    let own = bytes_from row_bytes memory at in
    let rest = copy_rows n row_bytes step memory (at + step) in
    ap (get_elem? (own ++ rest)) {x = suc row * row_bytes + k}
      {y = length own + (row * row_bytes + k)}
      (omega (arith, suc-mul row row_bytes, length-bytes_from row_bytes at memory))
    ∙ get_elem?-append_right own rest (row * row_bytes + k)
    ∙ get_elem?-copy_rows n row k row_bytes step (at + step) memory (omega arith) l
    ∙ ap (λ a. some (memory a)) {x = at + step + row * step + k} {y = at + suc row * step + k}
        (omega (arith, suc-mul row step))

read_bound :
    (height row k row_bytes step : ℕ)
    → fits height row_bytes step ≡ true
    → row_bytes < 2 ^ 31
    → row < height
    → k < row_bytes
    → row * step + k < 2 ^ 32
unfolding fits
read_bound height row k row_bytes step f b h l = elim (Bool-cases (ltb 1 height)) [
  | inr e ↦
      let zero_row = ap (λ r. r * step) {x = row} {y = 0} (ground arith) in omega (arith, zero_row)
  | inl e ↦
      let low : step ≤ (2 ^ 32 - 1 - row_bytes) / (height - 1) = ground arith in
      let rows : step * row ≤ step * (height - 1) = mul-le-mul_left step (omega arith) in
      let all = mul-le-mul_left (height - 1) low in
      let most = mul-div-le (2 ^ 32 - 1 - row_bytes) (height - 1) in
      omega (arith, rows, all, most, mul_comm row step, mul_comm (height - 1) step)
]

components_bound : (format : Format) → components format ≤ 4
unfolding components
components_bound alpha = omega arith
components_bound luminance = omega arith
components_bound luminance_alpha = omega arith
components_bound rgb = omega arith
components_bound rgba = omega arith
components_bound other_format = omega arith

size_bound : (format : Format) (type : PixelType) → pixel_size format type ≤ 16
unfolding pixel_size
size_bound format unsigned_byte = omega (arith, components_bound format)
size_bound format float = omega (arith, components_bound format)
size_bound format other_type = omega arith
size_bound alpha short_5_6_5 = omega arith
size_bound luminance short_5_6_5 = omega arith
size_bound luminance_alpha short_5_6_5 = omega arith
size_bound rgb short_5_6_5 = omega arith
size_bound rgba short_5_6_5 = omega arith
size_bound other_format short_5_6_5 = omega arith
size_bound alpha short_4_4_4_4 = omega arith
size_bound luminance short_4_4_4_4 = omega arith
size_bound luminance_alpha short_4_4_4_4 = omega arith
size_bound rgb short_4_4_4_4 = omega arith
size_bound rgba short_4_4_4_4 = omega arith
size_bound other_format short_4_4_4_4 = omega arith
size_bound alpha short_5_5_5_1 = omega arith
size_bound luminance short_5_5_5_1 = omega arith
size_bound luminance_alpha short_5_5_5_1 = omega arith
size_bound rgb short_5_5_5_1 = omega arith
size_bound rgba short_5_5_5_1 = omega arith
size_bound other_format short_5_5_5_1 = omega arith

dimension_bound : (n : ℤ) → dimension n ≤ 4096
unfolding dimension
dimension_bound (pos n) = ground arith
dimension_bound (negsuc n) = omega arith

unpack-packed :
    (allocated : Bool) (s : PixelStore) (width height : ℤ) (format : Format) (type : PixelType)
    (memory : ℕ → ℕ) (bytes : List ℕ)
    → unpack allocated s width height format type (some memory) ≡ packed bytes
    → let rb = dimension width * pixel_size format type in
      let step = stride s (dimension width) (pixel_size format type) in
      (bytes ≡ copy_rows (dimension height) rb step memory 0)
      × (fits (dimension height) rb step ≡ true)
unfolding unpack
unpack-packed allocated s width height format type memory bytes h = ground arith

-- The pixels that `__unpack` packs, after any calls that set parameters of unpacking: each byte of each packed row is
-- the client's byte of that row, and its offset has 32 bits. The client's rows are apart by the least multiple of
-- the alignment that was set last, or 4, which holds as many pixels as the row length that was set last, or as
-- the width if that is 0 or was not set.
pub unpack-rows :
    (calls : List (Name × ℤ)) (allocated : Bool) (width height : ℤ) (format : Format)
    (type : PixelType) (memory : ℕ → ℕ) (bytes : List ℕ) (row k : ℕ)
    → unpack allocated (configured calls) width height format type (some memory) ≡ packed bytes
    → row < dimension height
    → k < dimension width * pixel_size format type
    → (n : ℕ) × (step : ℕ) × IsPitch (last_length calls) (dimension width) n
      × IsRounded (n * pixel_size format type) (last_alignment calls) step
      × (get_elem? bytes (row * (dimension width * pixel_size format type) + k)
          ≡ some (memory (row * step + k)))
      × (row * step + k < 2 ^ 32)
unpack-rows calls allocated width height format type memory bytes row k h r l =
    let size = pixel_size format type in
    let rb = dimension width * size in
    let step = stride (configured calls) (dimension width) size in
    let (same, f) =
      unpack-packed allocated (configured calls) width height format type memory bytes h in
    let small : rb < 2 ^ 31 =
      omega (arith, mul-le-mul (dimension_bound width) (size_bound format type)) in
    let (n, pitch, rounded) = stride-IsRounded calls (dimension width) size in
    (
      n,
      step,
      pitch,
      rounded,
      ap (λ bs. get_elem? bs (row * rb + k)) same
          ∙ get_elem?-copy_rows (dimension height) row k rb step 0 memory r l
          ∙ ap (λ a. some (memory a)) {x = 0 + row * step + k} {y = row * step + k} (omega arith),
      read_bound (dimension height) row k rb step f small r l,
    )
