-- ===== src/Loader/Image/Relocation.antt =====
-- The relocations of loader_load_sections and of loader_bind.
use vita_arc.Base.{ℕ, ◌+◌, ◌*◌, ◌/◌, ◌%◌, ◌^◌, Bool, true, false, not, ◌||◌, Option, none, some}
use vita_arc.Base.{List, [], ◌∷◌, leb, ◌==◌, if◌then◌else◌}
use vita_arc.Base.Text.{codes, bytes_eq}
use vita_arc.Loader.Elf.{Shdr, Sym, Rel, read_sym, programs, sections, rel_sym, rel_type}
use vita_arc.Loader.Validation.Sections.{names_section, section_name, rel_table}
use vita_arc.Loader.Image.Defs.{Kernel, Library, store, wrote, load_segments}

-- The word at an address, and its bytes.
abbrev pub read_word : (ℕ → ℕ) → ℕ → ℕ
read_word memory a =
    memory a + (256 * memory (a + 1) + (65536 * memory (a + 2) + 16777216 * memory (a + 3)))

abbrev word_bytes : ℕ → List ℕ
word_bytes v = v % 256 ∷ (v / 256 % 256) ∷ (v / 65536 % 256) ∷ (v / 16777216 % 256) ∷ []

-- What a relocation does.
pub data Action : Type 0 where
  keep refuse : Action
  put : ℕ → Action

-- The switch of `__relocate`, on the type, the word in place, the symbol's address and the base.
unfoldable pub relocation : ℕ → ℕ → ℕ → ℕ → Action
relocation type word symbol base =
    if type == 0
    then keep
    else if type == 2
    then (if symbol == 0 then keep else put ((word + symbol) % 2 ^ 32))
    else if type == 23
    then put ((word + base) % 2 ^ 32)
    else if type == 21 || type == 22
    then put symbol
    else refuse

-- The copy at its end.
unfoldable pub apply : Kernel → ℕ → Action → Library → Bool × Library
unfolding store
apply kernel at keep l = (true, l)
apply kernel at refuse l = (false, l)
apply kernel at (put v) l =
    if not (kernel.copies l.writes at)
    then (false, l)
    else (true, wrote at 4 (store at (word_bytes v) l.memory) l)

-- `loader_addr`
unfoldable pub symbol_address : ℕ → Sym → ℕ
symbol_address base s = if s.shndx == 0xfff1 then s.value else (base + s.value) % 2 ^ 32

-- The sections that the loop over the names finds; the last of a name counts.
pub record Found : Type 0 where
  pub symbols : Option Shdr
  pub strings : Option Shdr
  pub ctors : Option Shdr
  pub dtors : Option Shdr

unfoldable pub find_sections : List ℕ → Shdr → List Shdr → Found → Found
unfolding section_name bytes_eq
find_sections image names [] found = found
find_sections image names (s ∷ ss) found =
    let name = section_name image names s in
    find_sections image names ss (
      if bytes_eq name (codes ".dynsym")
      then record found { symbols = some s }
      else if bytes_eq name (codes ".dynstr")
      then record found { strings = some s }
      else if bytes_eq name (codes ".init_array")
      then record found { ctors = some s }
      else if bytes_eq name (codes ".fini_array")
      then record found { dtors = some s }
      else found)

unfoldable pub has_relocations : List ℕ → Shdr → Shdr → Bool
unfolding section_name bytes_eq
has_relocations image names s =
    bytes_eq (section_name image names s) (codes ".rel.dyn")
    || bytes_eq (section_name image names s) (codes ".rel.plt")

-- The address that a relocation changes.
abbrev pub place : Rel → Library → ℕ
place r l = (l.base + r.offset) % 2 ^ 32

-- One round of the inner loop of loader_load_sections; `symbols` is `.dynsym`.
unfoldable pub relocate : Kernel → List ℕ → Shdr → Rel → Library → Bool × Library
unfolding relocation apply symbol_address read_sym
relocate kernel image symbols r l =
    let s = read_sym image (symbols.offset + 16 * rel_sym r) in
    let address = if not (s.shndx == 0) then symbol_address l.base s else 0 in
    if leb (symbols.size / 16) (rel_sym r)
    then (false, l)
    else apply kernel (place r l)
        (relocation (rel_type r) (read_word l.memory (place r l)) address l.base) l

-- A loop that stops at the first failure.
unfoldable pub each {ℓ κ} : {A : Type ℓ} {S : Type κ} → (A → S → Bool × S) → List A → S → Bool × S
each f [] l = (true, l)
each f (a ∷ as') l =
    let rest = each f as' (f a l).1 in if not (f a l).0 then (false, (f a l).1) else rest

-- The relocations of a section, if its name says that it has some.
unfoldable pub relocate_section : Kernel → List ℕ → Shdr → Shdr → Shdr → Library → Bool × Library
unfolding relocate each has_relocations rel_table
relocate_section kernel image names symbols s l =
    if not (has_relocations image names s)
    then (true, l)
    else each (relocate kernel image symbols) (rel_table image s) l

abbrev pub nothing_found : Found
nothing_found = record { symbols = none; strings = none; ctors = none; dtors = none }

-- loader_load_sections after the segments
unfoldable pub relocate_image : Kernel → List ℕ → Library → Bool × Library
unfolding relocate_section find_sections names_section sections
relocate_image kernel image l =
    let names = names_section image in
    let found = find_sections image names (sections image) nothing_found in
    elim found.symbols [
      | none ↦ (false, l)
      | some symbols ↦ elim found.strings [
        | none ↦ (false, l)
        | some strings ↦ each (relocate_section kernel image names symbols) (sections image) l
      ]
    ]

-- loader_load_sections
unfoldable pub load_sections : Kernel → List ℕ → Library → Bool × Library
unfolding load_segments relocate_image programs
load_sections kernel image l =
    let r = load_segments kernel image 0 (programs image) l in
    if not r.0 then (false, r.1) else relocate_image kernel image r.1
