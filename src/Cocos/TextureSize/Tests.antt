-- ===== src/Cocos/TextureSize/Tests.antt =====
-- Runs of bridges/cocos2dx/texture_size.c and the witnesses of its theorems.
use vita_arc.Base.{ℕ, ◌≡◌, true, some, List, [], ◌∷◌, ◌++◌, refl}
use vita_arc.Base.Text.{codes, bytes_eq}
use vita_arc.Cocos.TextureSize.Defs.{
  small_size, halve_loop, is_refused_size, source_size, record_ok, record_offset, be16, jpeg_magic,
}

one_reduction : small_size (some 2048) (some 1024) ≡ some (512, 256)
unfolding small_size halve_loop is_refused_size
one_reduction = refl

-- A JPEG that records the size 512 by 512 of a texture packed as 256 by 256.
abbrev jpeg : List ℕ
jpeg = jpeg_magic ++ (codes "VTX1" ++ (2 ∷ 0 ∷ 2 ∷ 0 ∷ 1 ∷ 0 ∷ 1 ∷ 0 ∷ []))

jpeg-source_size : source_size true jpeg 18 256 256 ≡ some (512, 512)
unfolding source_size record_ok record_offset be16 small_size halve_loop is_refused_size bytes_eq
jpeg-source_size = refl

abbrev Same : ℕ → ℕ → Type 0
Same a b = a ≡ b
