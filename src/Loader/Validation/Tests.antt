-- ===== src/Loader/Validation/Tests.antt =====
-- The validation on the sample library.
use vita_arc.Base.{
  ℕ, ◌+◌, ◌-◌, ◌*◌, ◌%◌, ◌^◌, ◌≤◌, ◌<◌, ◌≡◌, ◌⊎◌, refl, true, false, some, get_elem?, arith,
}
use vita_arc.Loader.Elf.{
  Phdr, Shdr, Sym, Rel, read_ehdr, read_phdr, read_shdr, read_sym, read_rel, programs, sections,
  rel_sym, rel_type,
}
use vita_arc.Loader.Sample.{image, accepted}
use vita_arc.Loader.Validation.Defs.{segments_ok, max_span}
use vita_arc.Loader.Validation.Sections.{
  View, sections_ok, symbols_ok, symbol_table, rels_ok, rel_table, is_rel_section, elf_check,
}
use vita_arc.Loader.Validation.Segments.{OnPages, segments_ok-fits, segments_ok-apart}
use vita_arc.Loader.Validation.Ident.{IsIdent}
use vita_arc.Loader.Validation.Entries.{elf_check-header, symbols_ok-names, rels_ok-entries}

-- Without its last byte the file is refused.
truncated : elf_check 447 image ≡ false
unfolding elf_check programs
truncated = refl

abbrev program : ℕ → Phdr
program i = read_phdr image (52 + 32 * i)

abbrev section : ℕ → Shdr
section i = read_shdr image (116 + 40 * i)

abbrev view : View
view = record {
  names = section 3;
  symbols = section 1;
  strings = section 2;
  symbol_section = 1;
  symbol_count = 2;
}

abbrev symbol : Sym
symbol = read_sym image 372

abbrev entry : Rel
entry = read_rel image 440

segments_pass : segments_ok 448 (programs image) ≡ true
unfolding segments_ok programs
segments_pass = refl

sections_pass : sections_ok 448 image ≡ some view
unfolding sections_ok programs
sections_pass = refl

elf_check-header_example :
    let h = read_ehdr image in
    IsIdent image
    × (52 ≤ 448)
    × (h.version ≡ 1)
    × (h.ehsize ≡ 52)
    × (h.phentsize ≡ 32)
    × (h.shentsize ≡ 40)
    × (h.machine ≡ 40)
    × (h.type ≡ 3)
    × (h.phoff + h.phnum * 32 ≤ 448)
    × (h.shoff + h.shnum * 40 ≤ 448)
    × (h.phoff % 4 ≡ 0)
    × (h.shoff % 4 ≡ 0)
    × (0 < h.phnum)
    × (h.shstrndx < h.shnum)
elf_check-header_example = elf_check-header 448 image accepted

segments_ok-fits_example :
    let p = program 1 in
    (p.filesz ≤ p.memsz)
    × (p.offset + p.filesz ≤ 448)
    × (p.vaddr + p.memsz ≤ max_span)
    × ((p.align ≤ 1)
        ⊎ (((k : ℕ) × (p.align ≡ 2 ^ k)) × ((p.vaddr + 2 ^ 32 - p.offset) % 2 ^ 32 % p.align ≡ 0)))
unfolding programs
segments_ok-fits_example =
    segments_ok-fits 448 (programs image) 1 (program 1) segments_pass refl refl

segments_ok-apart_example : ¬ OnPages (program 1) 0x1fff
unfolding programs
segments_ok-apart_example =
    segments_ok-apart 448 (programs image) 0 1 (program 0) (program 1) 0x1fff segments_pass
      (omega arith) refl refl refl refl (omega arith)

symbols_ok-names_example :
    ((symbol.shndx < (read_ehdr image).shnum) ⊎ (symbol.shndx ≡ 0xfff1))
    × (k : ℕ) × (symbol.name + k < view.strings.size)
    × (get_elem? image (view.strings.offset + symbol.name + k) ≡ some 0)
unfolding symbols_ok symbol_table sections
symbols_ok-names_example = symbols_ok-names image view 1 symbol refl refl

rels_ok-entries_example :
    (rel_sym entry < view.symbol_count)
    × ((rel_type entry ≡ 0)
        ⊎ ((k : ℕ) × (p : Phdr) × (get_elem? (programs image) k ≡ some p)
            × (p.type ≡ 1)
            × (p.vaddr ≤ entry.offset)
            × (entry.offset + 4 ≤ p.vaddr + p.memsz)))
unfolding rels_ok rel_table is_rel_section sections programs
rels_ok-entries_example = rels_ok-entries image view 4 0 (section 4) entry refl refl refl refl
