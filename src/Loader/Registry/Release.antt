-- ===== src/Loader/Registry/Release.antt =====
-- loader.c: the initializers of a library and its release.
use vita_arc.Base.{
  ℕ, zero, suc, ◌+◌, ◌-◌, ◌/◌, ◌%◌, ◌^◌, Bool, true, false, not, ◌&&◌, Option, none, some,
}
use vita_arc.Base.{List, [], ◌∷◌, ltb, ◌==◌, if◌then◌else◌, set}
use vita_arc.Loader.Elf.{Shdr}
use vita_arc.Loader.Image.Relocation.{read_word}
use vita_arc.Loader.Registry.Defs.{
  Entry, Event, Registry, constructor, destructor, prepared, finished, finalized_range, unmapped,
  entry_at, put_entry, span,
}

-- The words of an array in the library's memory.
unfoldable array_words : ℕ → (ℕ → ℕ) → ℕ → List ℕ
array_words zero memory at = []
array_words (suc n) memory at = read_word memory at ∷ array_words n memory ((at + 4) % 2 ^ 32)

-- The functions of an array section, those that are not null.
unfoldable non_null : List ℕ → List ℕ
non_null [] = []
non_null (f ∷ fs) = if f == 0 then non_null fs else f ∷ non_null fs

unfoldable pub functions : Entry → Option Shdr → List ℕ
unfolding array_words non_null
functions e array = elim array [
  | none ↦ []
  | some s ↦
      non_null (array_words (s.size / 4) e.library.memory ((e.library.base + s.addr) % 2 ^ 32))
]

-- The calls of the constructors in the order of the array, of the destructors in the opposite order.
unfoldable call_constructors : ℕ → List ℕ → List Event → List Event
call_constructors i [] trace = trace
call_constructors i (f ∷ fs) trace = call_constructors i fs (constructor i f ∷ trace)

unfoldable call_destructors : ℕ → List ℕ → List Event → List Event
call_destructors i [] trace = trace
call_destructors i (f ∷ fs) trace = destructor i f ∷ call_destructors i fs trace

-- loader_init_library
unfoldable pub init_library : ℕ → Registry → Bool × Registry
unfolding entry_at functions call_constructors
init_library i r = elim (entry_at r.slots i) [
  | none ↦ (false, r)
  | some e ↦ if e.unloading then (false, r) else if e.initialized then (true, r) else (
    true,
    put_entry i (record e { initialized = true })
        (record r { trace = call_constructors i (functions e e.ctors) r.trace }),
  )
]

-- What the rest of the system answers while a library is freed: whether its range has synchronization in use,
-- whether its preparation succeeds, and whether its synchronization is destroyed.
pub record Closing : Type 0 where
  pub busy : Bool
  pub prepares : Bool
  pub destroys : Bool

-- The events of the finalization.
unfoldable pub finalize : ℕ → Entry → List Event → List Event
unfolding functions call_destructors span
finalize i e trace =
    let prepare = if e.prepare then prepared i ∷ trace else trace in
    let down =
      if e.initialized then call_destructors i (functions e e.dtors) prepare else prepare in
    let range = finalized_range e.library.base (span e) ∷ down in
    if e.finish then finished i ∷ range else range

-- The library after it.
unfoldable pub closed : Entry → Entry
closed e = record e {
  refs = 0;
  unloading = true;
  prepare = false;
  finish = false;
  initialized = false;
  finalized = true;
}

-- loader_free_library after the last handle is gone.
unfoldable pub release : Closing → ℕ → Entry → Registry → Registry
unfolding finalize closed
release c i e r =
    let trace = finalize i e r.trace in
    if c.busy
    then put_entry i (record e { refs = 1 }) r
    else if e.prepare && not c.prepares
    then put_entry i (record e { refs = 1; unloading = false })
        (record r { trace = prepared i ∷ r.trace })
    else if not c.destroys
    then put_entry i (record (closed e) { refs = 1 }) (record r { trace = trace })
    else record r {
      slots = set r.slots i none;
      count = (r.count + 2 ^ 32 - 1) % 2 ^ 32;
      trace = unmapped e.library.blocks ∷ trace;
    }

-- loader_free_library
unfoldable pub free_library : Closing → ℕ → Registry → Registry
unfolding entry_at release
free_library c i r = elim (entry_at r.slots i) [
  | none ↦ r
  | some e ↦
      if e.refs == 0
      then r
      else if ltb 0 (e.refs - 1)
      then put_entry i (record e { refs = e.refs - 1 }) r
      else release c i e r
]
