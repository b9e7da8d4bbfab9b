-- ===== src/Jni/References/Frames.antt =====
-- The rest of bridges/jni/references.c: deletion, local frames, the collector's walks and the pins.
use vita_arc.Base.{
  ℕ, zero, suc, ◌+◌, ◌-◌, ◌%◌, ◌^◌, Bool, true, false, not, ◌&&◌, ◌||◌, Option, none, some,
}
use vita_arc.Base.{List, [], ◌∷◌, ◌==◌, if◌then◌else◌}
use vita_arc.Base.Int.{ℤ, pos, negsuc}
use vita_arc.Jni.References.Defs.{ensure}
use vita_arc.Jni.References.Defs.{RefType, Reference, Block, Frame, Refs, invalid, weak}
use vita_arc.Jni.References.Defs.{same_type, write_cell, write_frames, find, visible, push, is_free}

abbrev pub remove_first : ℕ → List ℕ → List ℕ
remove_first v [] = []
remove_first v (x ∷ xs) = if x == v then xs else x ∷ remove_first v xs

-- `__unlink`
unfoldable pub unlink : ℕ → Refs → Refs
unlink v s = record s {
  list = remove_first v s.list;
  cell = write_cell s.cell v (record (s.cell v) { object = 0; type = invalid });
}

-- `jni_refs_delete` by the thread `t`. The address of a freed cell is in the list no more.
unfoldable pub delete : ℕ → ℕ → RefType → Refs → Refs
unfolding find visible unlink
delete t v type s = elim (find v s) [
  | none ↦ s
  | some r ↦ if not (same_type r.type type) || not (visible t r) then s else unlink v s
]

-- The loop of `__pop_frame` over the `n` cells of a block from `base` on.
unfoldable pub release_cells : ℕ → ℕ → Refs → Refs
unfolding unlink
release_cells base zero s = s
release_cells base (suc n) s =
    release_cells (base + 1) n (if is_free (s.cell base) then s else unlink base s)

-- Its loop over the blocks.
unfoldable pub release_blocks : List Block → Refs → Refs
unfolding release_cells
release_blocks [] s = s
release_blocks (b ∷ bs) s = release_blocks bs (release_cells b.base b.capacity s)

-- `__pop_frame`
unfoldable pub pop_frame : ℕ → Refs → Refs
unfolding release_blocks
pop_frame t s = elim (s.frames t) [
  | [] ↦ s
  | f ∷ fs ↦ release_blocks f.blocks (record s { frames = write_frames s.frames t fs })
]

-- `jni_refs_pop`
unfoldable pop : ℕ → Refs → Refs
unfolding pop_frame
pop t s = elim (s.frames t) [ [] ↦ s | f ∷ fs ↦ if not f.native_boundary then pop_frame t s else s ]

abbrev mark_boundary : List Frame → List Frame
mark_boundary [] = []
mark_boundary (f ∷ fs) = record f { native_boundary = true } ∷ fs

-- `jni_refs_push` with its `jint`
unfoldable refs_push : ℕ → ℤ → Bool → Option ℕ → Refs → Option Refs
unfolding push
refs_push t (pos capacity) allocated block s = push t capacity allocated block s
refs_push t (negsuc capacity) allocated block s = none

-- `jni_refs_ensure` with its `jint`
unfoldable refs_ensure : ℕ → ℤ → Bool → Option ℕ → Refs → Option Refs
unfolding ensure
refs_ensure t (pos capacity) allocated block s = ensure t capacity allocated block s
refs_ensure t (negsuc capacity) allocated block s = none

-- `jni_refs_enter_native`
unfoldable enter_native : ℕ → ℤ → Bool → Option ℕ → Refs → Option Refs
unfolding refs_push
enter_native t capacity allocated block s = elim (refs_push t capacity allocated block s) [
  | none ↦ none
  | some s' ↦ some (record s' { frames = write_frames s'.frames t (mark_boundary (s'.frames t)) })
]

-- The loop of `jni_refs_leave_native`, over the thread's frames, with the call after it.
unfoldable pub leave_loop : ℕ → List Frame → Refs → Refs
unfolding pop_frame
leave_loop t [] s = pop_frame t s
leave_loop t (f ∷ fs) s =
    if not f.native_boundary then leave_loop t fs (pop_frame t s) else pop_frame t s

-- `jni_refs_leave_native`
unfoldable pub leave_native : ℕ → Refs → Refs
unfolding leave_loop
leave_native t s = leave_loop t (s.frames t) s

-- The first loop of `jni_refs_cleanup`, over the thread's frames.
unfoldable pub cleanup_loop : ℕ → List Frame → Refs → Refs
unfolding pop_frame
cleanup_loop t [] s = s
cleanup_loop t (f ∷ fs) s = cleanup_loop t fs (pop_frame t s)

unfoldable pub cleanup_frames : ℕ → Refs → Refs
unfolding cleanup_loop
cleanup_frames t s = cleanup_loop t (s.frames t) s

abbrev pub owned : Option ℕ → Bool
owned none = false
owned (some t) = true

abbrev pub keep_owned : (ℕ → Reference) → List ℕ → List ℕ
keep_owned cell [] = []
keep_owned cell (v ∷ vs) =
    if owned (cell v).owner then v ∷ keep_owned cell vs else keep_owned cell vs

-- `jni_refs_clear_globals`
unfoldable pub clear_globals : Refs → Refs
clear_globals s = record s { list = keep_owned s.cell s.list }

-- The objects on which `jni_refs_mark` calls `mark`, in order.
unfoldable pub marked : (ℕ → Reference) → List ℕ → List ℕ
marked cell [] = []
marked cell (v ∷ vs) =
    if not (same_type (cell v).type weak) then (cell v).object ∷ marked cell vs else marked cell vs

-- `jni_refs_clear_weak`, with the collector's predicate.
unfoldable pub clear_weak : (ℕ → Bool) → List ℕ → (ℕ → Reference) → ℕ → Reference
clear_weak alive [] cell = cell
clear_weak alive (v ∷ vs) cell = clear_weak alive vs (
    if same_type (cell v).type weak && not ((cell v).object == 0) && not (alive (cell v).object)
    then write_cell cell v (record (cell v) { object = 0 })
    else cell)

-- `jni_pin_t`; counts are 32-bit.
pub record Pin : Type 0 where
  pub object : ℕ
  pub count : ℕ

-- The loop of `jni_refs_pin`: the pins with the object's count raised, if it has one.
unfoldable pub raise_pin : ℕ → List Pin → Option (List Pin)
raise_pin object [] = none
raise_pin object (p ∷ ps) =
    let rest = raise_pin object ps in
    if p.object == object
    then some (record p { count = (p.count + 1) % 2 ^ 32 } ∷ ps)
    else elim rest [ none ↦ none | some ps' ↦ some (p ∷ ps') ]

-- `jni_refs_pin` on the current thread's pins; `allocated` tells whether `calloc` succeeds.
unfoldable pub pin : ℕ → Bool → List Pin → Option (List Pin)
unfolding raise_pin
pin object allocated ps = elim (raise_pin object ps) [
  | some ps' ↦ some ps'
  | none ↦ if not allocated then none else some (record { object = object; count = 1 } ∷ ps)
]

-- `jni_refs_unpin`
unfoldable pub unpin : ℕ → List Pin → Option (List Pin)
unpin object [] = none
unpin object (p ∷ ps) =
    let rest = unpin object ps in
    if p.object == object
    then some (
        let left = (p.count + (2 ^ 32 - 1)) % 2 ^ 32 in
        if left == 0 then ps else record p { count = left } ∷ ps)
    else elim rest [ none ↦ none | some ps' ↦ some (p ∷ ps') ]

-- The pins of a thread after the second loop of `jni_refs_cleanup`.
unfoldable cleanup_pins : List Pin → List Pin
cleanup_pins [] = []
cleanup_pins (p ∷ ps) = cleanup_pins ps

-- The objects on which `jni_refs_mark_pins` calls `mark` for a thread, in order.
unfoldable pub marked_pins : List Pin → List ℕ
marked_pins [] = []
marked_pins (p ∷ ps) = p.object ∷ marked_pins ps

-- `jni_refs_count`
unfoldable refs_count : List ℕ → ℕ
refs_count [] = 0
refs_count (v ∷ vs) = suc (refs_count vs)
