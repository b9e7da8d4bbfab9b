-- ===== src/Loader/Validation/Sections.antt =====
-- The section, symbol and relocation checks of loader/validation.c, and their composition.
use vita_arc.Base.{ℕ, ◌+◌, ◌-◌, ◌/◌, ◌%◌, Bool, true, false, not, ◌&&◌, ◌||◌}
use vita_arc.Base.{Option, none, some, List, [], ◌∷◌, get_or, drop, ltb, ◌==◌, if◌then◌else◌}
use vita_arc.Base.Text.{codes, until_nul, bytes_eq, has_nul}
use vita_arc.Loader.Elf.{
  Phdr, Shdr, Sym, Rel, read_ehdr, read_sym, read_rel, read_table, programs, sections, rel_sym,
  rel_type,
}
use vita_arc.Loader.Validation.Defs.{file_range, mapped_range, header_ok, segments_ok}

-- The symbol and string sections that the loop has met, with their indices.
pub record Found : Type 0 where
  pub symbols : Option (ℕ × Shdr)
  pub strings : Option (ℕ × Shdr)

abbrev is_set {ℓ} : {A : Type ℓ} → Option A → Bool
is_set none = false
is_set (some a) = true

-- The name of a section, in the section of names at `names`.
unfoldable pub section_name : List ℕ → Shdr → Shdr → List ℕ
unfolding until_nul
section_name image names s = until_nul (drop (names.offset + s.name) image)

-- The first test of the loop in `__sections_ok`.
unfoldable pub section_fits : ℕ → List ℕ → Shdr → Shdr → Bool
unfolding file_range has_nul
section_fits file_size image names s =
    (s.type == 8 || file_range s.offset s.size file_size)
    && ltb s.name names.size
    && has_nul (names.size - s.name) (drop (names.offset + s.name) image)

-- One round of the loop in `__sections_ok`; `none` is `return false`.
unfoldable pub section_round : ℕ → List ℕ → List Phdr → Shdr → ℕ → Shdr → Found → Option Found
unfolding section_fits section_name bytes_eq mapped_range
section_round file_size image ps names index s found =
    let name = section_name image names s in
    if not (section_fits file_size image names s)
    then none
    else if bytes_eq name (codes ".dynsym")
    then (if is_set found.symbols
          || not (s.type == 11)
          || not (s.entsize == 16)
          || not (s.size % 16 == 0)
          || s.size == 0
          || not (s.offset % 4 == 0)
        then none
        else some (record found { symbols = some (index, s) }))
    else if bytes_eq name (codes ".dynstr")
    then (if is_set found.strings || not (s.type == 3) || s.size == 0
        then none
        else some (record found { strings = some (index, s) }))
    else if bytes_eq name (codes ".init_array") || bytes_eq name (codes ".fini_array")
    then (if not (s.size % 4 == 0) || not (mapped_range ps s.addr s.size) then none else some found)
    else some found

unfoldable pub sections_loop : ℕ → List ℕ → List Phdr → Shdr → ℕ → List Shdr → Found → Option Found
unfolding section_round
sections_loop file_size image ps names index [] found = some found
sections_loop file_size image ps names index (s ∷ ss) found =
    elim (section_round file_size image ps names index s found) [
      | none ↦ none
      | some found' ↦ sections_loop file_size image ps names (index + 1) ss found'
    ]

-- What `__sections_ok` stores in `elf_view_t`.
pub record View : Type 0 where
  pub names : Shdr
  pub symbols : Shdr
  pub strings : Shdr
  pub symbol_section : ℕ
  pub symbol_count : ℕ

abbrev no_section : Shdr
no_section = record {
  name = 0;
  type = 0;
  flags = 0;
  addr = 0;
  offset = 0;
  size = 0;
  link = 0;
  info = 0;
  addralign = 0;
  entsize = 0;
}

-- The last test of `__sections_ok`: the two sections exist and the first is linked to the second.
unfoldable pub make_view : Shdr → ℕ → Found → Option View
make_view names shnum found = elim (found.symbols) [
  | none ↦ none
  | some (i, symbols) ↦ elim (found.strings) [
    | none ↦ none
    | some (j, strings) ↦
        if not (ltb symbols.link shnum) || not (symbols.link == j)
        then none
        else some (record {
          names = names;
          symbols = symbols;
          strings = strings;
          symbol_section = i;
          symbol_count = symbols.size / 16;
        })
  ]
]

unfoldable pub names_section : List ℕ → Shdr
unfolding sections read_ehdr
names_section image = get_or (sections image) (read_ehdr image).shstrndx no_section

-- `__sections_ok`
unfoldable pub sections_ok : ℕ → List ℕ → Option View
unfolding names_section sections_loop make_view file_range
sections_ok file_size image =
    let names = names_section image in
    if not (names.type == 3)
      || names.size == 0
      || not (file_range names.offset names.size file_size)
    then none
    else elim (sections_loop file_size image (programs image) names 0 (sections image)
        (record { symbols = none; strings = none })) [
          | none ↦ none
          | some found ↦ make_view names (read_ehdr image).shnum found
        ]

-- One round of `__symbols_ok`.
unfoldable pub symbol_ok : List ℕ → ℕ → Shdr → Sym → Bool
unfolding has_nul
symbol_ok image shnum strings s =
    ltb s.name strings.size
    && has_nul (strings.size - s.name) (drop (strings.offset + s.name) image)
    && (ltb s.shndx shnum || s.shndx == 0xfff1)

unfoldable pub symbols_loop : List ℕ → ℕ → Shdr → List Sym → Bool
unfolding symbol_ok
symbols_loop image shnum strings [] = true
symbols_loop image shnum strings (s ∷ ss) =
    symbol_ok image shnum strings s && symbols_loop image shnum strings ss

-- The table of `.dynsym`
unfoldable pub symbol_table : List ℕ → View → List Sym
unfolding read_table read_sym
symbol_table image v = read_table read_sym 16 image v.symbols.offset v.symbol_count

unfoldable pub symbols_ok : List ℕ → View → Bool
unfolding symbols_loop symbol_table
symbols_ok image v = symbols_loop image (read_ehdr image).shnum v.strings (symbol_table image v)

-- One relocation in `__rels_ok`.
unfoldable pub rel_ok : List Phdr → View → Rel → Bool
unfolding mapped_range
rel_ok ps v r = ltb (rel_sym r) v.symbol_count && (rel_type r == 0 || mapped_range ps r.offset 4)

unfoldable pub rels_loop : List Phdr → View → List Rel → Bool
unfolding rel_ok
rels_loop ps v [] = true
rels_loop ps v (r ∷ rs) = rel_ok ps v r && rels_loop ps v rs

-- The relocations of a section
unfoldable pub rel_table : List ℕ → Shdr → List Rel
unfolding read_table read_rel
rel_table image s = read_table read_rel 8 image s.offset (s.size / 8)

unfoldable pub is_rel_section : List ℕ → View → Shdr → Bool
unfolding section_name bytes_eq
is_rel_section image v s =
    bytes_eq (section_name image v.names s) (codes ".rel.dyn")
    || bytes_eq (section_name image v.names s) (codes ".rel.plt")

-- One section in `__rels_ok`.
unfoldable pub rel_section_ok : List ℕ → List Phdr → View → Shdr → Bool
unfolding rels_loop rel_table is_rel_section
rel_section_ok image ps v s =
    not (is_rel_section image v s)
    || (s.type == 9
        && s.entsize == 8
        && s.size % 8 == 0
        && s.offset % 4 == 0
        && s.link == v.symbol_section
        && rels_loop ps v (rel_table image s))

unfoldable pub rel_sections_loop : List ℕ → List Phdr → View → List Shdr → Bool
unfolding rel_section_ok
rel_sections_loop image ps v [] = true
rel_sections_loop image ps v (s ∷ ss) =
    rel_section_ok image ps v s && rel_sections_loop image ps v ss

unfoldable pub rels_ok : List ℕ → View → Bool
unfolding rel_sections_loop
rels_ok image v = rel_sections_loop image (programs image) v (sections image)

-- `loader_elf_check`
unfoldable pub elf_check : ℕ → List ℕ → Bool
unfolding header_ok segments_ok sections_ok symbols_ok rels_ok
elf_check file_size image =
    header_ok file_size image
    && segments_ok file_size (programs image)
    && elim (sections_ok file_size image) [
      | none ↦ false
      | some v ↦ symbols_ok image v && rels_ok image v
    ]
