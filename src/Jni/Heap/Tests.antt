-- ===== src/Jni/Heap/Tests.antt =====
-- Runs of bridges/jni/runtime/heap.c and the witnesses of its theorems.
use vita_arc.Base.{
  ℕ, ◌≡◌, ◌↔◌, inl, inr, refl, arith, true, Option, none, some, [], ◌∷◌, ◌==◌, if◌then◌else◌, All,
}
use vita_arc.Jni.Heap.Marking.{IsPointer, All-contains}
use vita_arc.Base.Text.{codes}
use vita_arc.Jni.References.Defs.{contains, Refs, local, weak}
use vita_arc.Jni.References.Frames.{marked, clear_weak}
use vita_arc.Jni.Heap.Defs.{
  Object, Heap, Kind, collect, mark_loop, mark_roots, mark_children, mark_list, mark_object,
  children, clear_marks, root_objects, thread_roots, pin_roots, sweep, field_values,
}
use vita_arc.Jni.Heap.Loop.{Reach}
use vita_arc.Jni.Heap.Collection.{IsHeap, roots_of, collect-Reach, collect-weak}
use vita_arc.Jni.Heap.Monitors.{
  World, Steps, here, next, enters, monitor_enter, attempt, monitor_exclusive, follow,
}

abbrev plain : Object
plain = record {
  kind = Kind.object;
  clazz = 10;
  signature = [];
  type = 0;
  elem = 0;
  elements = [];
  owner = none;
  depth = 0;
  waiters = 0;
  fields = [];
}

-- The class 10 with the field 11, the object 20 that holds 30 in it, and 40, which nothing holds.
abbrev node : ℕ → Object
node v =
    if v == 10
    then record plain { kind = Kind.class; clazz = 0 }
    else if v == 11
    then record plain { kind = Kind.field; signature = codes "Ljava/lang/Object;" }
    else if v == 20
    then record plain { fields = record { field = 11; value = 30 } ∷ [] }
    else plain

abbrev heap : Heap
heap = record { objects = 40 ∷ 30 ∷ 20 ∷ 11 ∷ 10 ∷ []; node = node; mark = λ v. true; stack = [] }

-- A local reference to 20 and weak ones to 30 and 40.
abbrev refs : Refs
refs = record {
  list = 3 ∷ 2 ∷ 1 ∷ [];
  cell = λ v.
      if v == 1
      then record { object = 20; type = local; owner = some 1; call_serial = 0 }
      else if v == 2
      then record { object = 30; type = weak; owner = none; call_serial = 0 }
      else record { object = 40; type = weak; owner = none; call_serial = 0 };
  frames = λ t. [];
  serial = λ t. 0;
}

collected : (collect [] refs heap).1.objects ≡ 30 ∷ 20 ∷ 11 ∷ 10 ∷ []
unfolding collect mark_loop mark_roots mark_children mark_list mark_object children clear_marks
    root_objects thread_roots pin_roots sweep field_values marked
collected = refl

All-closed : All (λ x. All (IsPointer heap.objects) (children node x)) heap.objects
unfolding children field_values contains
All-closed = (
  (inr refl, (inl refl, tt)),
  (
    (inr refl, (inl refl, tt)),
    (
      (inr refl, (inl refl, (inr refl, tt))),
      ((inr refl, (inl refl, tt)), ((inl refl, (inl refl, tt)), tt)),
    ),
  ),
)

heap-IsHeap : IsHeap [] refs heap
unfolding roots_of root_objects thread_roots pin_roots marked children field_values contains
heap-IsHeap = record {
  closed = λ o l.
      All-contains (λ x. All (IsPointer heap.objects) (children node x)) heap.objects o All-closed
        l;
  roots = (inr refl, (inr refl, (inr refl, tt)));
  idle = refl;
}

collect-Reach_example :
    ((o : ℕ)
      → (contains o (collect [] refs heap).1.objects ≡ true)
        ↔ Reach node (roots_of [] refs node heap.objects) o)
    × ((collect [] refs heap).1.stack ≡ [])
collect-Reach_example = collect-Reach [] refs heap heap-IsHeap

collect-weak_example :
    (((collect [] refs heap).0.cell 2).object ≡ 0)
    ↔ (Reach node (roots_of [] refs node heap.objects) 30 → ⊥)
unfolding contains
collect-weak_example = collect-weak [] refs heap 2 heap-IsHeap refl refl (omega arith) refl

-- The weak reference to 30 stays, the one to 40 is cleared.
weak_after :
    (((collect [] refs heap).0.cell 2).object ≡ 30) × (((collect [] refs heap).0.cell 3).object ≡ 0)
unfolding collect mark_loop mark_roots mark_children mark_list mark_object children clear_marks
    root_objects thread_roots pin_roots sweep field_values marked clear_weak
weak_after = (refl, refl)

abbrev Same : ℕ → ℕ → Type 0
Same a b = a ≡ b

abbrev seven : Option ℕ
seven = some 7

abbrev free_world : World
free_world = record { monitor = plain; waiting = 0; held = λ t. 0 }

twice : Steps free_world (
    follow 7 0
      (monitor_enter 7 (follow 7 0 (monitor_enter 7 plain) free_world).monitor)
      (follow 7 0 (monitor_enter 7 plain) free_world))
twice =
    next (next here (enters free_world 7))
      (enters (follow 7 0 (monitor_enter 7 plain) free_world) 7)

monitor_exclusive_example : (Same 7 7) × ((seven ≡ seven) × (Same 2 2))
unfolding monitor_enter attempt
monitor_exclusive_example =
    monitor_exclusive free_world
      (follow 7 0 (monitor_enter 7 (follow 7 0 (monitor_enter 7 plain) free_world).monitor)
        (follow 7 0 (monitor_enter 7 plain) free_world))
      7 7 (refl, refl, refl, refl, λ u. refl) twice (omega arith) (omega arith)
