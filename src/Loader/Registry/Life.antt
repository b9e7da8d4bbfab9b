-- ===== src/Loader/Registry/Life.antt =====
-- loader.c: how a library is loaded, initialized and freed.
use vita_arc.Base.{ℕ, ◌+◌, ◌-◌, ◌%◌, ◌^◌, Bool, false, not, ◌||◌, Option, none, some}
use vita_arc.Base.{List, [], ◌∷◌, ltb, leb, ◌==◌, if◌then◌else◌, set, length}
use vita_arc.Loader.Elf.{Phdr, Shdr, programs, sections}
use vita_arc.Loader.Validation.Defs.{align_up, max_span}
use vita_arc.Loader.Validation.Sections.{elf_check, names_section}
use vita_arc.Loader.Image.Defs.{Kernel, Library, address_limit}
use vita_arc.Loader.Image.Relocation.{Found, find_sections, nothing_found, load_sections}
use vita_arc.Loader.Image.Imports.{bind}
use vita_arc.Loader.Registry.Defs.{
  Entry, Registry, unmapped, put_entry, find_library, find_empty_slot, clone_handle,
}
use vita_arc.Loader.Registry.Symbols.{import_address}

-- What the rest of the system answers while a library is loaded: the file and its bytes, whether the memory
-- for the library, its image and the table of reports is there and the image is read, the base of the window
-- that is reserved (`none` if that fails), the kernel, the addresses of the bridges and of the AudioProvider's
-- table, and whether bridge_patch_arm_kuser succeeds.
pub record Host : Type 0 where
  pub exists : Bool
  pub size : ℕ
  pub bytes : List ℕ
  pub allocates : Bool
  pub reads : Bool
  pub window : Option ℕ
  pub reports : Bool
  pub kernel : Kernel
  pub bridge : List ℕ → ℕ
  pub provider : ℕ
  pub patches : Bool

-- What follows the last byte of a value.
unfoldable after_last : ℕ → List ℕ → Option (List ℕ)
after_last c [] = none
after_last c (b ∷ bs) = elim (after_last c bs) [
  | some r ↦ some r
  | none ↦ if b == c then some bs else none
]

abbrev non_empty : List ℕ → Option (List ℕ)
non_empty [] = none
non_empty (b ∷ bs) = some (b ∷ bs)

-- util_get_file_name; the separators are '/' and ':'
unfoldable pub file_name : List ℕ → Option (List ℕ)
unfolding after_last
file_name path = elim (after_last 47 path) [
  | some name ↦ non_empty name
  | none ↦ elim (after_last 58 path) [ some name ↦ non_empty name | none ↦ non_empty path ]
]

-- The end of the last segment.
unfoldable last_end : ℕ → List Phdr → ℕ
last_end end [] = end
last_end end (p ∷ ps) =
    let last = (p.vaddr + p.memsz) % 2 ^ 32 in
    if not (p.type == 1) || p.memsz == 0
    then last_end end ps
    else last_end (if ltb end last then last else end) ps

-- `__window`
unfoldable pub window : Host → Option ℕ
unfolding last_end align_up
window host =
    let end = last_end 0 (programs host.bytes) in
    elim host.window [
      | none ↦ none
      | some base ↦
          if end == 0
            || base == 0
            || not (base % 4096 == 0)
            || ltb address_limit (base + align_up end)
          then none
          else some base
    ]

abbrev no_library : ℕ → Library
no_library base = record {
  base = base;
  blocks = [];
  text = 0;
  image_end = 0;
  memory = λ a. 0;
  writes = [];
}

-- The library before its segments are mapped.
unfoldable pub fresh : List ℕ → List ℕ → List ℕ → ℕ → Entry
fresh name path image base = record {
  refs = 0;
  name = name;
  path = path;
  image = image;
  library = no_library base;
  tables = none;
  ctors = none;
  dtors = none;
  initialized = false;
  unloading = false;
  finalized = false;
  prepare = false;
  finish = false;
}

abbrev the_tables : Found → Option (Shdr × Shdr)
the_tables found = elim found.symbols [
  | none ↦ none
  | some symbols ↦ elim found.strings [ none ↦ none | some strings ↦ some (symbols, strings) ]
]

-- The library after loader_load_sections, which stored the sections that it found.
unfoldable pub linked : Library → Entry → Entry
unfolding find_sections names_section sections
linked l e =
    let found = find_sections e.image (names_section e.image) (sections e.image) nothing_found in
    record e { library = l; tables = the_tables found; ctors = found.ctors; dtors = found.dtors }

-- loader_bind of the library in a slot.
unfoldable pub bind_entry : Host → ℕ → Registry → Entry → Bool × Entry
unfolding bind import_address
bind_entry host slot r e = elim e.tables [
  | none ↦ (false, e)
  | some (symbols, strings) ↦
      let bound =
        bind host.reports host.kernel e.image
          (record {
            symbols = symbols;
            strings = strings;
            import = import_address host.bridge host.provider slot r.slots;
          })
          e.library in
      (bound.0, record e { library = bound.1 })
]

-- The three steps after the library was entered in the table, with the library as they leave it.
unfoldable pub install : Host → ℕ → Registry → Entry → Bool × Entry
unfolding load_sections linked bind_entry
install host slot r e =
    let loaded = load_sections host.kernel e.image e.library in
    let l = linked loaded.1 e in
    if not loaded.0
    then (false, record e { library = loaded.1 })
    else (let bound = bind_entry host slot (put_entry slot l r) l in
        if not bound.0 then (false, bound.1) else (host.patches, bound.1))

-- The table with the library entered, then the steps; a failure takes it out and unmaps its blocks.
unfoldable pub enter_library : Host → ℕ → Entry → Registry → Option ℕ × Registry
unfolding install clone_handle
enter_library host slot e r =
    let entered = put_entry slot e (record r { count = (r.count + 1) % 2 ^ 32 }) in
    let done = install host slot entered e in
    if not done.0
    then (
      none,
      record entered {
        slots = set entered.slots slot none;
        count = (entered.count + 2 ^ 32 - 1) % 2 ^ 32;
        trace = unmapped done.1.library.blocks ∷ r.trace;
      },
    )
    else clone_handle slot (put_entry slot done.1 entered)

-- loader_load_library after the tests of the path, for a library that is not loaded.
unfoldable pub load_file : Host → List ℕ → List ℕ → Registry → Option ℕ × Registry
unfolding elf_check window find_empty_slot fresh enter_library
load_file host name path r =
    if host.size == 0 || ltb max_span host.size
    then (none, r)
    else if not host.allocates || not host.reads
    then (none, r)
    else if not (elf_check host.size host.bytes)
    then (none, r)
    else elim (window host) [
      | none ↦ (none, r)
      | some base ↦ elim (find_empty_slot r) [
        | none ↦ (none, r)
        | some slot ↦ enter_library host slot (fresh name path host.bytes base) r
      ]
    ]

-- loader_load_library
unfoldable pub load_library : Host → List ℕ → Registry → Option ℕ × Registry
unfolding file_name find_library clone_handle load_file
load_library host path r = if not host.exists then (none, r) else elim (file_name path) [
  | none ↦ (none, r)
  | some name ↦
      if leb 64 (length name) || leb 128 (length path)
      then (none, r)
      else elim (find_library name r) [
        | some i ↦ clone_handle i r
        | none ↦ load_file host name path r
      ]
]
