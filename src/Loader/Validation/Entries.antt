-- ===== src/Loader/Validation/Entries.antt =====
-- What `loader_elf_check` establishes of each header table, symbol and relocation.
use vita_arc.Base.{
  ℕ, zero, suc, ◌+◌, ◌-◌, ◌*◌, ◌%◌, ◌≤◌, ◌<◌, ◌≡◌, ◌⊎◌, inl, inr, refl, true, sym, ◌∙◌,
}
use vita_arc.Base.{
  some, List, [], ◌∷◌, get_elem?, drop, arith, Option-cases, Bool-cases, leb, ◌==◌, ◌&&◌,
}
use vita_arc.Base.Text.{has_nul_at, get_elem?-drop, has_nul}
use vita_arc.Loader.Elf.{
  Ehdr, Phdr, Shdr, Sym, Rel, read_ehdr, programs, sections, rel_sym, rel_type,
}
use vita_arc.Loader.Validation.Defs.{mapped_range, header_fields_ok, header_ok, segments_ok}
use vita_arc.Loader.Validation.Ident.{IsIdent, read_ehdr-IsIdent}
use vita_arc.Loader.Validation.Sections.{
  View, sections_ok, symbol_ok, symbols_loop, symbol_table, symbols_ok, rel_ok, rels_loop,
  rel_table, is_rel_section, rel_section_ok, rel_sections_loop, rels_ok, elf_check,
}

-- The check passes when its five parts do, on one view.
pub elf_check-parts :
    (file_size : ℕ) (image : List ℕ)
    → elf_check file_size image ≡ true
    → (header_ok file_size image ≡ true)
      × (segments_ok file_size (programs image) ≡ true)
      × (v : View) × (sections_ok file_size image ≡ some v)
      × (symbols_ok image v ≡ true)
      × (rels_ok image v ≡ true)
unfolding elf_check
elf_check-parts file_size image h = elim (Option-cases (sections_ok file_size image)) [
  | inl e ↦ absurd (ground (arith, h, e))
  | inr (v, e) ↦
      (ground (arith, h, e), ground (arith, h, e), v, e, ground (arith, h, e), ground (arith, h, e))
]

fields_parts :
    (file_size : ℕ) (h : Ehdr)
    → header_fields_ok file_size h ≡ true
    → (h.version ≡ 1)
      × (h.ehsize ≡ 52)
      × (h.phentsize ≡ 32)
      × (h.shentsize ≡ 40)
      × (h.machine ≡ 40)
      × (h.type ≡ 3)
      × (h.phoff + h.phnum * 32 ≤ file_size)
      × (h.shoff + h.shnum * 40 ≤ file_size)
      × (h.phoff % 4 ≡ 0)
      × (h.shoff % 4 ≡ 0)
      × (0 < h.phnum)
      × (h.shstrndx < h.shnum)
unfolding header_fields_ok
fields_parts file_size h p = ground arith

header_parts :
    (file_size : ℕ) (image : List ℕ)
    → header_ok file_size image ≡ true
    → (52 ≤ file_size) × (header_fields_ok file_size (read_ehdr image) ≡ true)
unfolding header_ok
header_parts file_size image h = ground arith

-- An accepted file starts with the ELF magic number and the bytes for 32 bits, little-endian and the current version;
-- its header is that of an ARM shared object of the current version, with the sizes 52, 32 and 40 for itself and
-- the entries of its tables, and both tables lie inside the file, aligned to 4 bytes, with the section of names among
-- the sections.
pub elf_check-header :
    (file_size : ℕ) (image : List ℕ)
    → elf_check file_size image ≡ true
    → let h = read_ehdr image in
      IsIdent image
      × (52 ≤ file_size)
      × (h.version ≡ 1)
      × (h.ehsize ≡ 52)
      × (h.phentsize ≡ 32)
      × (h.shentsize ≡ 40)
      × (h.machine ≡ 40)
      × (h.type ≡ 3)
      × (h.phoff + h.phnum * 32 ≤ file_size)
      × (h.shoff + h.shnum * 40 ≤ file_size)
      × (h.phoff % 4 ≡ 0)
      × (h.shoff % 4 ≡ 0)
      × (0 < h.phnum)
      × (h.shstrndx < h.shnum)
elf_check-header file_size image h =
    let (big, fields) = header_parts file_size image (elf_check-parts file_size image h).0 in
    let (a, b, c, d, e, f, g, i, j, k, l, m) = fields_parts file_size (read_ehdr image) fields in
    (read_ehdr-IsIdent file_size image fields, big, a, b, c, d, e, f, g, i, j, k, l, m)

symbols_loop-at :
    (image : List ℕ) (shnum : ℕ) (strings : Shdr) (ss : List Sym) (i : ℕ) (s : Sym)
    → symbols_loop image shnum strings ss ≡ true
    → get_elem? ss i ≡ some s
    → symbol_ok image shnum strings s ≡ true
unfolding symbols_loop
symbols_loop-at image shnum strings [] i s h e = cc
symbols_loop-at image shnum strings (x ∷ ss) zero s h e = ground arith
symbols_loop-at image shnum strings (x ∷ ss) (suc i) s h e =
    ground (arith, symbols_loop-at image shnum strings ss i s)

symbol_ok-parts :
    (image : List ℕ) (shnum : ℕ) (strings : Shdr) (s : Sym)
    → symbol_ok image shnum strings s ≡ true
    → ((s.shndx < shnum) ⊎ (s.shndx ≡ 0xfff1))
      × (s.name < strings.size)
      × (has_nul (strings.size - s.name) (drop (strings.offset + s.name) image) ≡ true)
unfolding symbol_ok
symbol_ok-parts image shnum strings s h = ground arith

-- If the symbol checks pass, every symbol's section index is below the section count or SHN_ABS, and
-- its name ends with a NUL inside the string table.
pub symbols_ok-names :
    (image : List ℕ) (v : View) (i : ℕ) (s : Sym)
    → symbols_ok image v ≡ true
    → get_elem? (symbol_table image v) i ≡ some s
    → ((s.shndx < (read_ehdr image).shnum) ⊎ (s.shndx ≡ 0xfff1))
      × (k : ℕ) × (s.name + k < v.strings.size)
      × (get_elem? image (v.strings.offset + s.name + k) ≡ some 0)
unfolding symbols_ok
symbols_ok-names image v i s h e =
    let shnum = (read_ehdr image).shnum in
    let (index, inside, nul) =
      symbol_ok-parts image shnum v.strings s
        (symbols_loop-at image shnum v.strings (symbol_table image v) i s h e) in
    let (k, lt, at) =
      has_nul_at (v.strings.size - s.name) (drop (v.strings.offset + s.name) image) nul in
    (
      index,
      k,
      omega (arith, lt, inside),
      sym (get_elem?-drop (v.strings.offset + s.name) k image) ∙ at,
    )

mapped_range-at :
    (ps : List Phdr) (address size : ℕ)
    → mapped_range ps address size ≡ true
    → (i : ℕ) × (p : Phdr) × (get_elem? ps i ≡ some p)
      × (p.type ≡ 1)
      × (p.vaddr ≤ address)
      × (address + size ≤ p.vaddr + p.memsz)
unfolding mapped_range
mapped_range-at [] address size h = cc
mapped_range-at (p ∷ ps) address size h =
    elim (Bool-cases
      (p.type == 1 && leb p.vaddr address && leb (address + size) (p.vaddr + p.memsz))) [
        | inl t ↦ (0, p, refl, ground arith, ground arith, ground arith)
        | inr f ↦
            let (i, q, e, t, l, r) = mapped_range-at ps address size (ground (arith, h, f)) in
            (suc i, q, e, t, l, r)
      ]

rel_sections_loop-at :
    (image : List ℕ) (ps : List Phdr) (v : View) (ss : List Shdr) (i : ℕ) (s : Shdr)
    → rel_sections_loop image ps v ss ≡ true
    → get_elem? ss i ≡ some s
    → rel_section_ok image ps v s ≡ true
unfolding rel_sections_loop
rel_sections_loop-at image ps v [] i s h e = cc
rel_sections_loop-at image ps v (x ∷ ss) zero s h e = ground arith
rel_sections_loop-at image ps v (x ∷ ss) (suc i) s h e =
    ground (arith, rel_sections_loop-at image ps v ss i s)

rels_loop-at :
    (ps : List Phdr) (v : View) (rs : List Rel) (i : ℕ) (r : Rel)
    → rels_loop ps v rs ≡ true
    → get_elem? rs i ≡ some r
    → rel_ok ps v r ≡ true
unfolding rels_loop
rels_loop-at ps v [] i r h e = cc
rels_loop-at ps v (x ∷ rs) zero r h e = ground arith
rels_loop-at ps v (x ∷ rs) (suc i) r h e = ground (arith, rels_loop-at ps v rs i r)

rel_section_ok-loop :
    (image : List ℕ) (ps : List Phdr) (v : View) (s : Shdr)
    → rel_section_ok image ps v s ≡ true
    → is_rel_section image v s ≡ true
    → rels_loop ps v (rel_table image s) ≡ true
unfolding rel_section_ok
rel_section_ok-loop image ps v s h k = ground arith

rel_ok-parts :
    (ps : List Phdr) (v : View) (r : Rel)
    → rel_ok ps v r ≡ true
    → (rel_sym r < v.symbol_count) × ((rel_type r ≡ 0) ⊎ (mapped_range ps r.offset 4 ≡ true))
unfolding rel_ok
rel_ok-parts ps v r h = ground arith

-- If the relocation checks pass, every entry of a `.rel.dyn` or `.rel.plt` section names a symbol of
-- the table, and is R_ARM_NONE or patches 4 bytes inside the memory of one PT_LOAD segment.
pub rels_ok-entries :
    (image : List ℕ) (v : View) (i j : ℕ) (s : Shdr) (r : Rel)
    → rels_ok image v ≡ true
    → get_elem? (sections image) i ≡ some s
    → is_rel_section image v s ≡ true
    → get_elem? (rel_table image s) j ≡ some r
    → (rel_sym r < v.symbol_count)
      × ((rel_type r ≡ 0)
          ⊎ ((k : ℕ) × (p : Phdr) × (get_elem? (programs image) k ≡ some p)
              × (p.type ≡ 1)
              × (p.vaddr ≤ r.offset)
              × (r.offset + 4 ≤ p.vaddr + p.memsz)))
unfolding rels_ok
rels_ok-entries image v i j s r h e k f =
    let passed = rel_sections_loop-at image (programs image) v (sections image) i s h e in
    let loop = rel_section_ok-loop image (programs image) v s passed k in
    let (bound, place) =
      rel_ok-parts (programs image) v r
        (rels_loop-at (programs image) v (rel_table image s) j r loop f) in
    (
      bound,
      elim (place) [
        | inl unused ↦ inl unused
        | inr mapped ↦ inr (mapped_range-at (programs image) r.offset 4 mapped)
      ],
    )
