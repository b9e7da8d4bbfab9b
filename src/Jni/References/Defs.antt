-- ===== src/Jni/References/Defs.antt =====
-- The reference table of bridges/jni/references.c. A `jobject` is the address of a reference cell; the
-- cells of a block stand at consecutive addresses. What `calloc` returns is an argument.
use vita_arc.Base.{
  ℕ, zero, suc, ◌+◌, ◌-◌, ◌/◌, ◌^◌, Bool, true, false, not, ◌&&◌, ◌||◌, Option, none, some,
}
use vita_arc.Base.{List, [], ◌∷◌, ltb, leb, ◌==◌, if◌then◌else◌}

-- `jobjectRefType`
pub data RefType : Type 0 where
  invalid local global weak : RefType

abbrev pub same_type : RefType → RefType → Bool
same_type invalid invalid = true
same_type local local = true
same_type global global = true
same_type weak weak = true
same_type _ _ = false

-- `jni_reference_t`; `next` is in the list of the table. An object is its address, 0 for NULL, and a
-- thread is a number, `none` for NULL.
pub record Reference : Type 0 where
  pub object : ℕ
  pub type : RefType
  pub owner : Option ℕ
  pub call_serial : ℕ

-- A cell that `calloc` zeroed.
abbrev pub zeroed : Reference
zeroed = record { object = 0; type = invalid; owner = none; call_serial = 0 }

-- `jni_reference_block_t`: the cells `base`, ..., `base + capacity - 1`
pub record Block : Type 0 where
  pub base : ℕ
  pub capacity : ℕ

-- `jni_frame_t`; the parents are the rest of the thread's list.
pub record Frame : Type 0 where
  pub blocks : List Block
  pub native_boundary : Bool

-- `__references` from its head, the memory of the cells, and each thread's frames and call serial
pub record Refs : Type 0 where
  pub list : List ℕ
  pub cell : ℕ → Reference
  pub frames : ℕ → List Frame
  pub serial : ℕ → ℕ

unfoldable pub contains : ℕ → List ℕ → Bool
contains v [] = false
contains v (x ∷ xs) = x == v || contains v xs

abbrev pub write_cell : (ℕ → Reference) → ℕ → Reference → ℕ → Reference
write_cell cell v r at = if v == at then r else cell at

abbrev pub write_frames : (ℕ → List Frame) → ℕ → List Frame → ℕ → List Frame
write_frames frames t fs at = if t == at then fs else frames at

-- `__find`
unfoldable pub find : ℕ → Refs → Option Reference
find v s = if contains v s.list then some (s.cell v) else none

abbrev is_thread : ℕ → Option ℕ → Bool
is_thread t none = false
is_thread t (some u) = u == t

-- `__visible`, to the thread `t`
unfoldable pub visible : ℕ → Reference → Bool
visible t r = elim (r.owner) [ none ↦ true | some u ↦ u == t ]

-- `jni_refs_resolve`, called by the thread `t`
unfoldable pub resolve : ℕ → ℕ → Refs → ℕ
unfolding find visible
resolve t v s = elim (find v s) [ none ↦ 0 | some r ↦ if visible t r then r.object else 0 ]

-- `jni_refs_type`
unfoldable pub type_of : ℕ → ℕ → Refs → RefType
unfolding find visible
type_of t v s = elim (find v s) [
  | none ↦ invalid
  | some r ↦ if visible t r then r.type else invalid
]

-- `jni_refs_is_new_local`
unfoldable pub is_new_local : ℕ → ℕ → Refs → Bool
unfolding find
is_new_local t v s = elim (find v s) [
  | none ↦ false
  | some r ↦ is_thread t r.owner && same_type r.type local && r.call_serial == s.serial t
]

-- `(SIZE_MAX - sizeof(jni_reference_block_t)) / sizeof(jni_reference_t)` on the device: 32-bit sizes, a
-- block header of 8 bytes and 32 bytes for each cell
abbrev max_cells : ℕ
max_cells = (2 ^ 32 - 1 - 8) / 32

-- The cells that `calloc` zeroed.
unfoldable pub clear_cells : (ℕ → Reference) → ℕ → ℕ → ℕ → Reference
clear_cells cell base n at = if leb base at && ltb at (base + n) then zeroed else cell at

-- `__reserve`: a block of `capacity` cells at the address that `calloc` returned.
unfoldable pub reserve : Frame → ℕ → Option ℕ → (ℕ → Reference) → Option (Frame × (ℕ → Reference))
unfolding clear_cells
reserve f capacity none cell = none
reserve f capacity (some base) cell =
    if ltb max_cells capacity
    then none
    else some (
      record f { blocks = record { base = base; capacity = capacity } ∷ f.blocks },
      clear_cells cell base capacity,
    )

abbrev empty_frame : Frame
empty_frame = record { blocks = []; native_boundary = false }

-- The frame that `jni_refs_push` links, if both allocations succeed. Capacities are those of `jint`
-- arguments that passed the test for negative values.
unfoldable pub push : ℕ → ℕ → Bool → Option ℕ → Refs → Option Refs
unfolding reserve
push t capacity allocated block s =
    if not allocated
    then none
    else elim (reserve empty_frame (if capacity == 0 then 1 else capacity) block s.cell) [
      | none ↦ none
      | some (f, cell) ↦
          some (record s { cell = cell; frames = write_frames s.frames t (f ∷ s.frames t) })
    ]

abbrev pub is_free : Reference → Bool
is_free r = same_type r.type invalid

-- The free cells among `n` from `base` on.
unfoldable pub free_cells : (ℕ → Reference) → ℕ → ℕ → ℕ
free_cells cell base zero = 0
free_cells cell base (suc n) = (if is_free (cell base) then 1 else 0) + free_cells cell (base + 1) n

unfoldable pub available : (ℕ → Reference) → List Block → ℕ
unfolding free_cells
available cell [] = 0
available cell (b ∷ bs) = free_cells cell b.base b.capacity + available cell bs

-- `jni_refs_ensure`
unfoldable pub ensure : ℕ → ℕ → Bool → Option ℕ → Refs → Option Refs
unfolding push reserve available
ensure t capacity allocated block s = elim (s.frames t) [
  | [] ↦ push t (if ltb 32 capacity then capacity else 32) allocated block s
  | f ∷ fs ↦
      if leb capacity (available s.cell f.blocks)
      then some s
      else elim (reserve f (capacity - available s.cell f.blocks) block s.cell) [
        | none ↦ none
        | some (f', cell) ↦
            some (record s { cell = cell; frames = write_frames s.frames t (f' ∷ fs) })
      ]
]

-- The first free cell, as the loops of `__local_slot` find it.
unfoldable pub first_free : (ℕ → Reference) → ℕ → ℕ → Option ℕ
first_free cell base zero = none
first_free cell base (suc n) =
    if is_free (cell base) then some base else first_free cell (base + 1) n

unfoldable pub free_slot : (ℕ → Reference) → List Block → Option ℕ
unfolding first_free
free_slot cell [] = none
free_slot cell (b ∷ bs) = elim (first_free cell b.base b.capacity) [
  | some v ↦ some v
  | none ↦ free_slot cell bs
]

abbrev pub top_blocks : List Frame → List Block
top_blocks [] = []
top_blocks (f ∷ fs) = f.blocks

-- `__local_slot`: the slot, with the state after the `jni_refs_ensure` in it.
unfoldable pub local_slot : ℕ → Bool → Option ℕ → Refs → Option (ℕ × Refs)
unfolding ensure free_slot
local_slot t allocated block s = elim (ensure t 1 allocated block s) [
  | none ↦ none
  | some s' ↦ elim (free_slot s'.cell (top_blocks (s'.frames t))) [
    | none ↦ none
    | some v ↦ some (v, s')
  ]
]

-- The end of `jni_refs_new`: the cell is filled and linked.
unfoldable pub link : ℕ → Reference → Refs → Refs
link v r s = record s { list = v ∷ s.list; cell = write_cell s.cell v r }

-- `jni_refs_new` by the thread `t`, which is not NULL. For a local reference `allocated` and `block`
-- are what the two allocations of a new frame or block return, for another one `block` is what
-- `calloc` returns.
unfoldable pub new : ℕ → ℕ → RefType → Bool → Option ℕ → Refs → Option (ℕ × Refs)
unfolding local_slot link
new t object local allocated block s =
    if object == 0 then none else elim (local_slot t allocated block s) [
      | none ↦ none
      | some (v, s') ↦ some (
        v,
        link v (record { object = object; type = local; owner = some t; call_serial = s'.serial t })
            s',
      )
    ]
new t object type allocated block s = if object == 0 then none else elim (block) [
  | none ↦ none
  | some v ↦
      some (v, link v (record { object = object; type = type; owner = none; call_serial = 0 }) s)
]
