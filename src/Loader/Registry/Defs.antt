-- ===== src/Loader/Registry/Defs.antt =====
-- The table of loader.c. A handle is the index of its slot.
use vita_arc.Base.{ℕ, zero, suc, ◌+◌, ◌%◌, ◌^◌, Bool, Option, none, some}
use vita_arc.Base.{List, [], ◌∷◌, leb, if◌then◌else◌, set}
use vita_arc.Base.Text.{bytes_eq}
use vita_arc.Loader.Elf.{Shdr}
use vita_arc.Loader.Validation.Defs.{align_up}
use vita_arc.Loader.Image.Defs.{Library}

-- `dynalib_t`: `image` is the file, `tables` are `.dynsym` and `.dynstr`, `prepare` and `finish` are whether
-- the hooks are set.
pub record Entry : Type 0 where
  pub refs : ℕ
  pub name : List ℕ
  pub path : List ℕ
  pub image : List ℕ
  pub library : Library
  pub tables : Option (Shdr × Shdr)
  pub ctors : Option Shdr
  pub dtors : Option Shdr
  pub initialized : Bool
  pub unloading : Bool
  pub finalized : Bool
  pub prepare : Bool
  pub finish : Bool

-- `span`
unfoldable pub span : Entry → ℕ
unfolding align_up
span e = align_up e.library.image_end

-- What the loader does to a library besides the table.
pub data Event : Type 0 where
  constructor destructor : ℕ → ℕ → Event
  prepared finished : ℕ → Event
  finalized_range : ℕ → ℕ → Event
  unmapped : List (ℕ × ℕ) → Event

-- `__libs`, `__count` and the events, the newest first.
pub record Registry : Type 0 where
  pub slots : List (Option Entry)
  pub count : ℕ
  pub trace : List Event

abbrev pub slot_limit : ℕ
slot_limit = 32

-- The library of a handle.
unfoldable pub entry_at : List (Option Entry) → ℕ → Option Entry
entry_at [] i = none
entry_at (s ∷ ss) zero = s
entry_at (s ∷ ss) (suc i) = entry_at ss i

abbrev pub put_entry : ℕ → Entry → Registry → Registry
put_entry i e r = record r { slots = set r.slots i (some e) }

-- loader_find_library, from a slot on
unfoldable pub find_from : List ℕ → ℕ → List (Option Entry) → Option ℕ
find_from name i [] = none
find_from name i (none ∷ ss) = find_from name (i + 1) ss
find_from name i (some e ∷ ss) = if bytes_eq e.name name then some i else find_from name (i + 1) ss

unfoldable pub find_library : List ℕ → Registry → Option ℕ
unfolding find_from
find_library name r = find_from name 0 r.slots

-- The loop of loader_find_empty_slot.
unfoldable pub empty_from : ℕ → List (Option Entry) → Option ℕ
empty_from i [] = none
empty_from i (none ∷ ss) = some i
empty_from i (some e ∷ ss) = empty_from (i + 1) ss

unfoldable pub find_empty_slot : Registry → Option ℕ
unfolding empty_from
find_empty_slot r = if leb slot_limit r.count then none else empty_from 0 r.slots

-- loader_clone_handle
unfoldable pub clone_handle : ℕ → Registry → Option ℕ × Registry
unfolding entry_at
clone_handle i r = elim (entry_at r.slots i) [
  | none ↦ (none, r)
  | some e ↦
      if e.unloading
      then (none, r)
      else (some i, put_entry i (record e { refs = (e.refs + 1) % 2 ^ 32 }) r)
]
