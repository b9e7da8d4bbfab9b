-- ===== src/Loader/Validation/Ident.antt =====
-- What `__header_ok` establishes of the identification at the start of the file.
use vita_arc.Base.{ℕ, zero, suc, ◌<◌, ◌≡◌, refl, true, sym, ◌∙◌}
use vita_arc.Base.{some, List, [], ◌∷◌, get_elem?, get_or, take, ap, arith}
use vita_arc.Base.Text.{codes, bytes_eq, bytes_eq_sound}
use vita_arc.Loader.Elf.{Ehdr, read_ehdr}
use vita_arc.Loader.Validation.Defs.{header_fields_ok}

-- What the tests say of the identification: the magic number, 32 bits, little-endian, the current version.
abbrev pub IsIdent : List ℕ → Type 0
IsIdent bytes =
    (get_elem? bytes 0 ≡ some 0x7f)
    × (get_elem? bytes 1 ≡ some 69)
    × (get_elem? bytes 2 ≡ some 76)
    × (get_elem? bytes 3 ≡ some 70)
    × (get_elem? bytes 4 ≡ some 1)
    × (get_elem? bytes 5 ≡ some 1)
    × (get_elem? bytes 6 ≡ some 1)

get_or-take :
    (n k : ℕ) (bytes : List ℕ) (v : ℕ)
    → get_or (take n bytes) k 0 ≡ suc v
    → get_elem? bytes k ≡ some (suc v)
get_or-take zero k bytes v h = absurd (omega (arith, h))
get_or-take (suc n) k [] v h = absurd (omega (arith, h))
get_or-take (suc n) zero (b ∷ bytes) v h = ap some h
get_or-take (suc n) (suc k) (b ∷ bytes) v h = get_or-take n k bytes v h

get_or-four :
    (l : List ℕ) (k : ℕ)
    → k < 4
    → get_or (get_or l 0 0 ∷ get_or l 1 0 ∷ get_or l 2 0 ∷ get_or l 3 0 ∷ []) k 0 ≡ get_or l k 0
get_or-four l zero lt = refl
get_or-four l (suc zero) lt = refl
get_or-four l (suc (suc zero)) lt = refl
get_or-four l (suc (suc (suc zero))) lt = refl
get_or-four l (suc (suc (suc (suc k)))) lt = absurd (omega (arith, lt))

magic_test :
    (file_size : ℕ) (h : Ehdr)
    → header_fields_ok file_size h ≡ true
    → bytes_eq
        (get_or h.ident 0 0 ∷ get_or h.ident 1 0 ∷ get_or h.ident 2 0 ∷ get_or h.ident 3 0 ∷ [])
        (0x7f ∷ codes "ELF")
      ≡ true
unfolding header_fields_ok
magic_test file_size h p = ground (arith, p)

class_parts :
    (file_size : ℕ) (h : Ehdr)
    → header_fields_ok file_size h ≡ true
    → (get_or h.ident 4 0 ≡ 1) × (get_or h.ident 5 0 ≡ 1) × (get_or h.ident 6 0 ≡ 1)
unfolding header_fields_ok
class_parts file_size h p = ground (arith, p)

read_ehdr-magic :
    (file_size : ℕ) (image : List ℕ) (k v : ℕ)
    → header_fields_ok file_size (read_ehdr image) ≡ true
    → k < 4
    → get_or (0x7f ∷ codes "ELF") k 0 ≡ suc v
    → get_elem? image k ≡ some (suc v)
unfolding read_ehdr
read_ehdr-magic file_size image k v p lt e = get_or-take 16 k image v (
    sym (get_or-four (take 16 image) k lt)
    ∙ ap (λ l. get_or l k 0) (bytes_eq_sound _ _ (magic_test file_size (read_ehdr image) p))
    ∙ e)

pub read_ehdr-IsIdent :
    (file_size : ℕ) (image : List ℕ)
    → header_fields_ok file_size (read_ehdr image) ≡ true
    → IsIdent image
unfolding read_ehdr
read_ehdr-IsIdent file_size image p =
    let (c, d, v) = class_parts file_size (read_ehdr image) p in
    (
      read_ehdr-magic file_size image 0 126 p (omega arith) refl,
      read_ehdr-magic file_size image 1 68 p (omega arith) refl,
      read_ehdr-magic file_size image 2 75 p (omega arith) refl,
      read_ehdr-magic file_size image 3 69 p (omega arith) refl,
      get_or-take 16 4 image 0 c,
      get_or-take 16 5 image 0 d,
      get_or-take 16 6 image 0 v,
    )
