-- ===== src/Loader/Image/Tests.antt =====
-- The sample library loaded and bound at 0x81000000, by a kernel that does what it is asked.
use vita_arc.Base.{◌/◌, ◌≡◌, ◌≢◌, ◌⊎◌, refl, true, [], arith}
use vita_arc.Loader.Elf.{Shdr, Rel, read_shdr, read_rel, rel_type, programs, sections}
use vita_arc.Loader.Sample.{image, accepted}
use vita_arc.Loader.Validation.Sections.{rel_table, names_section}
use vita_arc.Loader.Image.Defs.{Kernel, Library}
use vita_arc.Loader.Image.Relocation.{load_sections, has_relocations}
use vita_arc.Loader.Image.Writes.{IsSafe}
use vita_arc.Loader.Image.Safety.{load_sections-IsSafe}
use vita_arc.Loader.Image.Imports.{Linkage, bind, is_skipped, target_of, import_symbol}
use vita_arc.Loader.Image.Binding.{bind_complete}
use vita_arc.Loader.Image.Bound.{bind-IsSafe}

abbrev kernel : Kernel
kernel = record {
  maps = λ i. true;
  places = λ i. true;
  clears = λ ws a. true;
  copies = λ ws a. true;
}

abbrev library : Library
library = record {
  base = 0x81000000;
  blocks = [];
  text = 0;
  image_end = 0;
  memory = λ a. 0;
  writes = [];
}

loaded : (load_sections kernel image library).0 ≡ true
unfolding load_sections programs
loaded = refl

load_sections-IsSafe_example : IsSafe (load_sections kernel image library).1
load_sections-IsSafe_example = load_sections-IsSafe kernel image 448 library accepted refl

-- The symbol is an import, which stands at 0x90000000.
abbrev linkage : Linkage
linkage = record {
  symbols = read_shdr image 156;
  strings = read_shdr image 196;
  import = λ name. 0x90000000;
}

bind-IsSafe_example :
    IsSafe (bind true kernel image linkage (load_sections kernel image library).1).1
bind-IsSafe_example = bind-IsSafe true kernel image 448 linkage library accepted refl loaded

abbrev table : Shdr
table = read_shdr image 276

abbrev entry : Rel
entry = read_rel image 440

bind_done : (bind true kernel image linkage library).0 ≡ true
unfolding bind sections names_section
bind_done = refl

bind_complete_example :
    ((target_of image linkage entry ≡ 0) × ((import_symbol image linkage entry).info / 16 ≡ 2))
    ⊎ ((target_of image linkage entry ≢ 0)
        × ((rel_type entry ≡ 2) ⊎ (rel_type entry ≡ 21) ⊎ (rel_type entry ≡ 22)))
unfolding sections has_relocations rel_table is_skipped names_section
bind_complete_example =
    bind_complete true kernel image linkage library 4 0 table entry (omega arith) bind_done refl
      refl refl refl
