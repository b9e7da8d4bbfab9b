-- ===== src/Loader/Validation/Defs.antt =====
-- The header and segment checks of loader/validation.c, with the constants of elf.h and of loader/internal.h.
use Prim.Native.Nat.{bit_and}
use vita_arc.Base.{ℕ, ◌+◌, ◌-◌, ◌*◌, ◌/◌, ◌%◌, ◌^◌, Bool, false, not, ◌&&◌, ◌||◌}
use vita_arc.Base.{List, [], ◌∷◌, get_or, ltb, leb, ◌==◌, if◌then◌else◌}
use vita_arc.Base.Text.{codes, bytes_eq}
use vita_arc.Loader.Elf.{Ehdr, Phdr, read_ehdr}

abbrev pub max_span : ℕ
max_span = 0x18000000

abbrev pub page_size : ℕ
page_size = 0x1000

abbrev pub max_segments : ℕ
max_segments = 16

-- `ALIGN_UP` and `ALIGN_DOWN` to a page, on `uint32_t`
unfoldable pub align_up : ℕ → ℕ
align_up value = (value + (page_size - 1)) % 2 ^ 32 / page_size * page_size

unfoldable pub align_down : ℕ → ℕ
align_down value = value / page_size * page_size

-- `__file_range`
unfoldable pub file_range : ℕ → ℕ → ℕ → Bool
file_range offset size file_size = leb offset file_size && leb size (file_size - offset)

-- `__mapped_range`; the sums are 64-bit and exact.
unfoldable pub mapped_range : List Phdr → ℕ → ℕ → Bool
mapped_range [] address size = false
mapped_range (p ∷ ps) address size =
    (p.type == 1 && leb p.vaddr address && leb (address + size) (p.vaddr + p.memsz))
    || mapped_range ps address size

-- The tests of `__header_ok` on the header itself.
unfoldable pub header_fields_ok : ℕ → Ehdr → Bool
unfolding file_range bytes_eq
header_fields_ok file_size h =
    bytes_eq
      (get_or h.ident 0 0 ∷ get_or h.ident 1 0 ∷ get_or h.ident 2 0 ∷ get_or h.ident 3 0 ∷ [])
      (0x7f ∷ codes "ELF")
    && (get_or h.ident 4 0 == 1 && get_or h.ident 5 0 == 1)
    && (get_or h.ident 6 0 == 1 && h.version == 1)
    && (h.machine == 40 && h.type == 3)
    && (h.ehsize == 52 && h.phentsize == 32 && h.shentsize == 40)
    && (not (h.phnum == 0) && not (h.shnum == 0))
    && (not (h.shstrndx == 0) && ltb h.shstrndx h.shnum)
    && (h.phoff % 4 == 0 && h.shoff % 4 == 0)
    && file_range h.phoff (h.phnum * 32) file_size
    && file_range h.shoff (h.shnum * 40) file_size

-- `__header_ok`
unfoldable pub header_ok : ℕ → List ℕ → Bool
unfolding header_fields_ok
header_ok file_size image = not (ltb file_size 52) && header_fields_ok file_size (read_ehdr image)

-- The checks on one PT_LOAD header before its pages are compared.
unfoldable pub segment_ok : ℕ → Phdr → Bool
unfolding file_range
segment_ok file_size p =
    not (ltb p.memsz p.filesz)
    && file_range p.offset p.filesz file_size
    && not (ltb max_span (p.vaddr + p.memsz))
    && (not (ltb 1 p.align)
        || (bit_and p.align (p.align - 1) == 0
            && (p.vaddr + 2 ^ 32 - p.offset) % 2 ^ 32 % p.align == 0))

unfoldable first_page : Phdr → ℕ
unfolding align_down
first_page p = align_down p.vaddr

unfoldable end_page : Phdr → ℕ
unfolding align_up
end_page p = align_up ((p.vaddr + p.memsz) % 2 ^ 32)

-- The inner loop's body: `other` has pages in common with `p`.
unfoldable pub overlaps : Phdr → Phdr → Bool
unfolding first_page end_page
overlaps p other =
    other.type == 1
    && not (other.memsz == 0)
    && not (leb (end_page other) (first_page p))
    && not (leb (end_page p) (first_page other))

unfoldable pub overlaps_any : Phdr → List Phdr → Bool
unfolding overlaps
overlaps_any p [] = false
overlaps_any p (q ∷ qs) = overlaps p q || overlaps_any p qs

-- The loop of `__segments_ok`, over the headers left, with those before them (the last one first).
unfoldable pub segments_loop : ℕ → List Phdr → List Phdr → ℕ → Bool
unfolding segment_ok overlaps_any
segments_loop file_size previous [] loads = ltb 0 loads
segments_loop file_size previous (p ∷ ps) loads =
    let skip = segments_loop file_size (p ∷ previous) ps loads in
    let count = segments_loop file_size (p ∷ previous) ps (loads + 1) in
    if not (p.type == 1)
    then skip
    else if not (segment_ok file_size p)
    then false
    else if p.memsz == 0
    then skip
    else if ltb max_segments (loads + 1)
    then false
    else if overlaps_any p previous
    then false
    else count

unfoldable pub segments_ok : ℕ → List Phdr → Bool
unfolding segments_loop
segments_ok file_size ps = segments_loop file_size [] ps 0
