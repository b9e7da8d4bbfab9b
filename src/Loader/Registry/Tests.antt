-- ===== src/Loader/Registry/Tests.antt =====
-- The sample library loaded into an empty table.
use vita_arc.Base.{
  ℕ, ◌-◌, ◌*◌, ◌/◌, ◌≤◌, ◌≡◌, ◌⊎◌, ◌↔◌, refl, sym, ◌∙◌, true, false, none, some, List, [], ◌∷◌, set,
  none≢some,
}
use vita_arc.Base.Text.{codes}
use vita_arc.Loader.Elf.{programs, sections, read_shdr}
use vita_arc.Loader.Sample.{image}
use vita_arc.Loader.Validation.Sections.{elf_check}
use vita_arc.Loader.Image.Defs.{Kernel}
use vita_arc.Loader.Registry.Defs.{Entry, Registry, slot_limit, entry_at, find_library}
use vita_arc.Loader.Registry.Unwind.{IsTable, find_exidx, is_code, find_exidx-IsTable}
use vita_arc.Loader.Registry.Life.{Host, load_library, file_name, fresh}
use vita_arc.Loader.Registry.Release.{Closing, free_library, init_library}
use vita_arc.Loader.Registry.Slots.{occupied, entry_at-replicate}
use vita_arc.Loader.Registry.Invariant.{WellFormed}
use vita_arc.Loader.Registry.Outcomes.{load_outcome}
use vita_arc.Loader.Registry.Steps.{here, next, load, init, free, no_libraries, Steps-WellFormed}
use vita_arc.Loader.Registry.Freeing.{free_empties, calls, retries}

abbrev kernel : Kernel
kernel = record {
  maps = λ i. true;
  places = λ i. true;
  clears = λ ws a. true;
  copies = λ ws a. true;
}

-- A system that answers every call, with a bridge for every import.
abbrev host : Host
host = record {
  exists = true;
  size = 448;
  bytes = image;
  allocates = true;
  reads = true;
  window = some 0x81000000;
  reports = true;
  kernel = kernel;
  bridge = λ name. 0x90000000;
  provider = 0;
  patches = true;
}

abbrev path : List ℕ
path = codes "app/f.so"

abbrev file : List ℕ
file = codes "f.so"

named : file_name path ≡ some file
unfolding file_name
named = refl

loaded : (load_library host path no_libraries).0 ≡ some 0
unfolding load_library elf_check programs sections
loaded = refl

load_outcome_example :
    let x = load_library host path no_libraries in
    ((x.0 ≡ none) × (x.1.slots ≡ no_libraries.slots) × (x.1.count ≡ no_libraries.count))
    ⊎ ((i : ℕ) × (x.0 ≡ some i)
        × (find_library file x.1 ≡ some i)
        × ((find_library file no_libraries ≡ some i) ⊎ (elf_check 448 image ≡ true)))
load_outcome_example = load_outcome host path file no_libraries named

no_libraries-WellFormed : WellFormed no_libraries
unfolding occupied
no_libraries-WellFormed = record {
  size = refl;
  counted = refl;
  settled = λ i e t. absurd (none≢some e (sym (entry_at-replicate slot_limit i) ∙ t));
  distinct = λ i j e f t u s. absurd (none≢some e (sym (entry_at-replicate slot_limit i) ∙ t));
}

abbrev closing : Closing
closing = record { busy = false; prepares = true; destroys = true }

abbrev after_load : Registry
after_load = (load_library host path no_libraries).1

abbrev after_init : Registry
after_init = (init_library 0 after_load).1

Steps-WellFormed_example : WellFormed (free_library closing 0 after_init)
Steps-WellFormed_example = Steps-WellFormed no_libraries-WellFormed (
    next (next (next here (load host path no_libraries)) (init 0 after_load))
      (free closing 0 after_init))

-- A library with one handle.
abbrev entry : Entry
entry = record (fresh file path image 0x81000000) { refs = 1 }

abbrev one_library : Registry
one_library = record { slots = set no_libraries.slots 0 (some entry); count = 1; trace = [] }

free_empties_example : (entry_at (free_library closing 0 one_library).slots 0 ≡ none) ↔ (
    (entry.refs ≡ 1)
    × (closing.busy ≡ false)
    × ((entry.prepare ≡ false) ⊎ (closing.prepares ≡ true))
    × (closing.destroys ≡ true))
unfolding entry_at
free_empties_example = free_empties closing 0 entry one_library refl

-- An initialized library with both hooks, whose synchronization is destroyed by the third release.
abbrev hooked : Entry
hooked = record entry {
  library = record entry.library { memory = λ a. 1 };
  initialized = true;
  prepare = true;
  finish = true;
  dtors = some (read_shdr image 316);
}

abbrev hooked_library : Registry
hooked_library = record { slots = set no_libraries.slots 0 (some hooked); count = 1; trace = [] }

abbrev failing : Closing
failing = record { busy = false; prepares = true; destroys = false }

abbrev again : List Closing
again = failing ∷ closing ∷ []

-- The first release calls a destructor and both hooks; in the end the library is gone.
released :
    (calls (free_library failing 0 hooked_library).trace ≡ 3)
    × (entry_at (retries again 0 (free_library failing 0 hooked_library)).slots 0 ≡ none)
unfolding free_library calls retries fresh read_shdr entry_at
released = (refl, refl)

-- The sample with an unwind table of 16 bytes among its code.
abbrev unwinding : List ℕ
unwinding = set (set (set (set (set image 120 1) 123 112) 124 2) 128 64) 136 16

abbrev unwound : Entry
unwound = fresh file path unwinding 0x81000000

table_found : find_exidx 0x81000005 (some unwound ∷ []) ≡ (0x81000040, 2)
unfolding find_exidx programs sections fresh
table_found = refl

find_exidx-IsTable_example :
    (i : ℕ) × (e : Entry) × (entry_at (some unwound ∷ []) i ≡ some e)
    × (e.library.base ≤ 0x81000005 / 2 * 2)
    × (is_code (programs e.image) (0x81000005 / 2 * 2 - e.library.base) ≡ true)
    × IsTable e (find_exidx 0x81000005 (some unwound ∷ []))
find_exidx-IsTable_example = find_exidx-IsTable 0x81000005 (some unwound ∷ []) (λ h. cc table_found)
