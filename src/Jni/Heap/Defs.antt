-- ===== src/Jni/Heap/Defs.antt =====
-- The objects of bridges/jni/runtime/object.h and the collector of bridges/jni/runtime/heap.c. An object is its
-- address, 0 for NULL. The `mark` of each object is a function of its own, `gray` the list of the stack.
use vita_arc.Base.{ℕ, zero, suc, Bool, true, false, not, ◌&&◌, ◌||◌, Option, none, some}
use vita_arc.Base.{List, [], ◌∷◌, ◌++◌, ◌==◌, if◌then◌else◌, length}
use vita_arc.Jni.References.Defs.{Refs}
use vita_arc.Jni.References.Frames.{marked, marked_pins, clear_weak, clear_globals, owned, Pin}

-- `jni_kind_t`
pub data Kind : Type 0 where
  object class string method native field array direct_buffer : Kind

-- `jni_slot_t`: the field, and the reference in its value.
pub record Slot : Type 0 where
  pub field : ℕ
  pub value : ℕ

-- `jni_obj_t`, as far as the collector and the monitors read it. `data` holds the elements of an array.
pub record Object : Type 0 where
  pub kind : Kind
  pub clazz : ℕ
  pub signature : List ℕ
  pub type : ℕ
  pub elem : ℕ
  pub elements : List ℕ
  pub owner : Option ℕ
  pub depth : ℕ
  pub waiters : ℕ
  pub fields : List Slot

-- `jni_thread_t`, as far as the collector reads it: the exception, the native roots and the pins.
pub record Thread : Type 0 where
  pub exception : ℕ
  pub native_roots : List (List ℕ)
  pub pins : List Pin

-- `__objects` from its head, the objects in memory, their marks and `__mark_stack`
pub record Heap : Type 0 where
  pub objects : List ℕ
  pub node : ℕ → Object
  pub mark : ℕ → Bool
  pub stack : List ℕ

-- `__mark_object`
unfoldable pub mark_object : ℕ → Heap → Heap
mark_object o h =
    if o == 0 || h.mark o
    then h
    else record h { mark = λ v. if v == o then true else h.mark v; stack = o ∷ h.stack }

-- Calls of it in turn.
unfoldable pub mark_list : List ℕ → Heap → Heap
unfolding mark_object
mark_list [] h = h
mark_list (o ∷ os) h = mark_list os (mark_object o h)

-- The loop that clears the marks.
unfoldable pub clear_marks : List ℕ → (ℕ → Bool) → ℕ → Bool
clear_marks [] mark = mark
clear_marks (o ∷ os) mark = clear_marks os (λ v. if v == o then false else mark v)

abbrev is_metadata : Kind → Bool
is_metadata class = true
is_metadata method = true
is_metadata field = true
is_metadata native = true
is_metadata _ = false

-- The objects that are roots by themselves.
unfoldable pub root_objects : (ℕ → Object) → List ℕ → List ℕ
root_objects node [] = []
root_objects node (o ∷ os) =
    if is_metadata (node o).kind || (owned (node o).owner || not ((node o).waiters == 0))
    then o ∷ root_objects node os
    else root_objects node os

-- The native roots of a thread, from the innermost call.
unfoldable pub flat : List (List ℕ) → List ℕ
flat [] = []
flat (r ∷ rs) = r ++ flat rs

-- The roots of the threads' calls.
unfoldable pub thread_roots : List Thread → List ℕ
unfolding flat
thread_roots [] = []
thread_roots (t ∷ ts) = t.exception ∷ (flat t.native_roots ++ thread_roots ts)

-- The loop of `jni_refs_mark_pins` over the threads
unfoldable pub pin_roots : List Thread → List ℕ
unfolding marked_pins
pin_roots [] = []
pin_roots (t ∷ ts) = marked_pins t.pins ++ pin_roots ts

-- `__mark_roots`
unfoldable pub mark_roots : List Thread → Refs → Heap → Heap
unfolding mark_list clear_marks root_objects thread_roots pin_roots marked
mark_roots threads refs h = mark_list (pin_roots threads) (
    mark_list (marked refs.cell refs.list) (
      mark_list (thread_roots threads) (
        mark_list (root_objects h.node h.objects)
          (record h { mark = clear_marks h.objects h.mark }))))

abbrev first_byte : List ℕ → ℕ
first_byte [] = 0
first_byte (c ∷ cs) = c

-- The values of the reference fields.
unfoldable pub field_values : (ℕ → Object) → List Slot → List ℕ
field_values node [] = []
field_values node (f ∷ fs) =
    let c = first_byte (node f.field).signature in
    if c == 76 || c == 91 then f.value ∷ field_values node fs else field_values node fs

abbrev is_array : Kind → Bool
is_array array = true
is_array _ = false

-- What `__mark_children` marks, in order.
unfoldable pub children : (ℕ → Object) → ℕ → List ℕ
unfolding field_values
children node o =
    (node o).clazz
    ∷ (node o).elem
    ∷ (field_values node (node o).fields
        ++ (if is_array (node o).kind && (node o).type == 76 then (node o).elements else []))

-- `__mark_children`
unfoldable pub mark_children : ℕ → Heap → Heap
unfolding mark_list children
mark_children o h = mark_list (children h.node o) h

-- The loop of `jni_runtime_collect` over the stack, of at most `fuel` rounds.
unfoldable pub mark_loop : ℕ → Heap → Heap
unfolding mark_children
mark_loop zero h = h
mark_loop (suc fuel) h = elim h.stack [
  | [] ↦ h
  | o ∷ rest ↦ mark_loop fuel (mark_children o (record h { stack = rest }))
]

-- The sweep: the objects that stay in the list.
unfoldable pub sweep : (ℕ → Bool) → List ℕ → List ℕ
sweep mark [] = []
sweep mark (o ∷ os) = if mark o then o ∷ sweep mark os else sweep mark os

-- `jni_runtime_collect`. As many rounds as there are objects are enough.
unfoldable pub collect : List Thread → Refs → Heap → Refs × Heap
unfolding mark_roots mark_loop sweep clear_weak
collect threads refs h =
    let h' = mark_loop (length h.objects) (mark_roots threads refs h) in
    (
      record refs { cell = clear_weak h'.mark refs.list refs.cell },
      record h' { objects = sweep h'.mark h'.objects },
    )

-- `jni_runtime_vm_cleanup`
unfoldable vm_cleanup : Refs → Heap → Refs × Heap
unfolding clear_globals
vm_cleanup refs h = (clear_globals refs, record h { objects = []; stack = [] })

-- `jni_heap_new`: `address` is what `calloc` returned.
unfoldable heap_new : Kind → Option ℕ → Heap → Option (ℕ × Heap)
heap_new kind none h = none
heap_new kind (some a) h = some (
  a,
  record h {
    objects = a ∷ h.objects;
    mark = λ v. if v == a then false else h.mark v;
    node = λ v.
        if v == a
        then record {
          kind = kind;
          clazz = 0;
          signature = [];
          type = 0;
          elem = 0;
          elements = [];
          owner = none;
          depth = 0;
          waiters = 0;
          fields = [];
        }
        else h.node v;
  },
)
