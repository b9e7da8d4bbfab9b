-- ===== src/Loader/Image/Imports.antt =====
-- loader_bind: the relocations against symbols that the library does not define.
use vita_arc.Base.{ℕ, ◌+◌, ◌*◌, ◌/◌, ◌%◌, ◌^◌, Bool, true, false, not, ◌||◌}
use vita_arc.Base.{List, leb, ltb, ◌==◌, if◌then◌else◌, drop}
use vita_arc.Base.Text.{until_nul}
use vita_arc.Loader.Elf.{Shdr, Sym, Rel, read_sym, sections, rel_sym, rel_type}
use vita_arc.Loader.Validation.Sections.{names_section, rel_table}
use vita_arc.Loader.Image.Defs.{Kernel, Library}
use vita_arc.Loader.Image.Relocation.{put, apply, place, read_word, each, has_relocations}

-- The dynamic symbols and strings of the library, and the address for the name of an import, 0 if none.
pub record Linkage : Type 0 where
  pub symbols : Shdr
  pub strings : Shdr
  pub import : List ℕ → ℕ

-- The variables of loader_bind: `reported` by the index of the symbol.
pub record Binding : Type 0 where
  pub library : Library
  pub reported : ℕ → Bool
  pub unresolved : ℕ
  pub resolved : ℕ

unfoldable pub import_symbol : List ℕ → Linkage → Rel → Sym
unfolding read_sym
import_symbol image k r = read_sym image (k.symbols.offset + 16 * rel_sym r)

-- `target`
unfoldable pub target_of : List ℕ → Linkage → Rel → ℕ
unfolding import_symbol until_nul
target_of image k r =
    k.import (until_nul (drop (k.strings.offset + (import_symbol image k r).name) image))

-- The relocations that the loop passes over.
unfoldable pub is_skipped : List ℕ → Linkage → Rel → Bool
unfolding import_symbol
is_skipped image k r =
    rel_type r == 0
    || rel_type r == 23
    || leb (k.symbols.size / 16) (rel_sym r)
    || not ((import_symbol image k r).shndx == 0)

-- A symbol counts once.
unfoldable pub report : ℕ → Binding → Binding
report i b = if b.reported i then b else record b {
  reported = λ j. j == i || b.reported j;
  unresolved = (b.unresolved + 1) % 2 ^ 32;
}

-- The copy of the value.
unfoldable pub patch : Kernel → Rel → ℕ → Binding → Bool × Binding
unfolding apply
patch kernel r value b =
    let copied = apply kernel (place r b.library) (put value) b.library in
    if not copied.0
    then (false, record b { library = copied.1 })
    else (true, record b { library = copied.1; resolved = (b.resolved + 1) % 2 ^ 32 })

-- One round of the inner loop.
unfoldable pub bind_one : Kernel → List ℕ → Linkage → Rel → Binding → Bool × Binding
unfolding is_skipped target_of import_symbol report patch
bind_one kernel image k r b =
    let target = target_of image k r in
    if is_skipped image k r
    then (true, b)
    else if target == 0
    then (
      true,
      (if not ((import_symbol image k r).info / 16 == 2) then report (rel_sym r) b else b),
    )
    else if rel_type r == 2
    then patch kernel r ((read_word b.library.memory (place r b.library) + target) % 2 ^ 32) b
    else if rel_type r == 21 || rel_type r == 22
    then patch kernel r target b
    else (true, report (rel_sym r) b)

unfoldable pub bind_section : Kernel → List ℕ → Linkage → Shdr → Binding → Bool × Binding
unfolding bind_one each has_relocations rel_table
bind_section kernel image k s b =
    if not (has_relocations image (names_section image) s)
    then (true, b)
    else each (bind_one kernel image k) (rel_table image s) b

abbrev pub nothing_bound : Library → Binding
nothing_bound l = record { library = l; reported = λ i. false; unresolved = 0; resolved = 0 }

unfoldable pub bind_loop : Kernel → List ℕ → Linkage → Library → Bool × Binding
unfolding bind_section sections each
bind_loop kernel image k l = each (bind_section kernel image k) (sections image) (nothing_bound l)

-- loader_bind; the first argument is whether the memory for `reported` is there.
unfoldable pub bind : Bool → Kernel → List ℕ → Linkage → Library → Bool × Library
unfolding bind_loop
bind allocated kernel image k l =
    let r = bind_loop kernel image k l in
    if not allocated
    then (false, l)
    else if not r.0
    then (false, r.1.library)
    else if ltb 0 r.1.unresolved
    then (false, r.1.library)
    else (true, r.1.library)
