-- ===== src/Jni/Heap/Collection.antt =====
-- The collector keeps exactly the reachable objects.
use vita_arc.Base.{
  ℕ, ◌≤◌, ◌≡◌, ◌≢◌, ◌↔◌, inl, inr, refl, sym, ap, ◌∙◌, Bool, true, false, not, ◌&&◌,
}
use vita_arc.Base.{List, [], ◌∷◌, ◌++◌, if◌then◌else◌, length, arith, All, Bool-cases}
use mathlib.Core.Path.{subst}
use native.Mathlib.Decide.{ℕ_discrete}
use vita_arc.Jni.References.Defs.{contains, Refs}
use vita_arc.Jni.References.Frames.{marked}
use vita_arc.Jni.Heap.Defs.{
  Heap, Object, Thread, mark_list, clear_marks, mark_loop, mark_roots, children, root_objects,
  thread_roots, pin_roots, sweep, collect,
}
use vita_arc.Jni.Heap.Marking.{
  mark-mark_list, stack-mark_list, mark_list-rest, unmarked-le, work, IsPointer, mark_list-work,
  mark_list-append, clear_marks-listed, All-contains,
}
use vita_arc.Jni.References.Defs.{Reference, weak, same_type}
use vita_arc.Jni.References.Collection.{clear_weak-clears}
use vita_arc.Jni.Heap.Loop.{Reach, root, child, IsClosed, Inv, mark_loop-Inv}

-- What `__mark_roots` marks.
unfoldable pub roots_of : List Thread → Refs → (ℕ → Object) → List ℕ → List ℕ
roots_of threads refs node objects =
    root_objects node objects
    ++ (thread_roots threads ++ (marked refs.cell refs.list ++ pin_roots threads))

mark_roots-list :
    (threads : List Thread) (refs : Refs) (h : Heap)
    → mark_roots threads refs h
      ≡ mark_list
          (roots_of threads refs h.node h.objects)
          (record h { mark = clear_marks h.objects h.mark })
unfolding mark_roots roots_of
mark_roots-list threads refs h =
    let s = record h { mark = clear_marks h.objects h.mark } in
    let a = root_objects h.node h.objects in
    let b = thread_roots threads in
    let c = marked refs.cell refs.list in
    let d = pin_roots threads in
    sym (
      mark_list-append a (b ++ (c ++ d)) s
      ∙ mark_list-append b (c ++ d) (mark_list a s)
      ∙ mark_list-append c d (mark_list b (mark_list a s)))

-- A heap between collections: pointers lead to listed objects, and so do the roots.
pub record IsHeap (threads : List Thread) (refs : Refs) (h : Heap) : Type 0 where
  pub closed : IsClosed h.node h.objects
  pub roots : All (IsPointer h.objects) (roots_of threads refs h.node h.objects)
  pub idle : h.stack ≡ []

mark_roots-Inv :
    (threads : List Thread) (refs : Refs) (h : Heap)
    → IsHeap threads refs h
    → Inv h.node h.objects (roots_of threads refs h.node h.objects) (mark_roots threads refs h)
      × (work h.objects (mark_roots threads refs h) ≤ length h.objects)
unfolding contains
mark_roots-Inv threads refs h i =
    let s = record h { mark = clear_marks h.objects h.mark } in
    let roots = roots_of threads refs h.node h.objects in
    let marks = λ (w : ℕ). mark-mark_list roots s w in
    let stacks = λ (w : ℕ). stack-mark_list roots s w in
    let clear = λ (w : ℕ). clear_marks-listed h.objects h.mark w in
    let pointer = λ (w : ℕ). All-contains (IsPointer h.objects) roots w i.roots in
    let empty = λ (w : ℕ). ap (λ xs. contains w xs) i.idle in
    subst (λ t. Inv h.node h.objects roots t × (work h.objects t ≤ length h.objects))
      (sym (mark_roots-list threads refs h))
      (
        record {
          same = mark_list-rest roots s;
          stacked = λ v c. ground (arith, marks v, stacks v, pointer v, empty v);
          sound =
              λ v l m. root (ground (arith, marks v, clear v)) (ground (arith, marks v, clear v));
          from_roots = λ v c z. ground (arith, marks v);
          closed = λ u v l m c z. inl (ground (arith, marks u, stacks u, clear u));
        },
        omega (
          arith,
          mark_list-work roots h.objects s i.roots,
          unmarked-le (clear_marks h.objects h.mark) h.objects,
          ap (λ xs. length xs) i.idle,
        ),
      )

contains-sweep :
    (mark : ℕ → Bool) (os : List ℕ) (w : ℕ) → contains w (sweep mark os) ≡ contains w os && mark w
unfolding sweep contains
contains-sweep mark [] w = ground arith
contains-sweep mark (o ∷ os) w = elim (ℕ_discrete o w) [
  | yes p ↦ ground (arith, contains-sweep mark os w, ap mark p)
  | no ne ↦ ground (arith, contains-sweep mark os w)
]

module _ (threads : List Thread) (refs : Refs) (h : Heap) where
  abbrev Live : ℕ → Type 0
  Live o = Reach h.node (roots_of threads refs h.node h.objects) o

  abbrev after : Heap
  after = mark_loop (length h.objects) (mark_roots threads refs h)

  after-Inv :
      IsHeap threads refs h
      → Inv h.node h.objects (roots_of threads refs h.node h.objects) after × (after.stack ≡ [])
  after-Inv i =
      let (start, bound) = mark_roots-Inv threads refs h i in
      mark_loop-Inv h.node h.objects (roots_of threads refs h.node h.objects) (length h.objects)
        (mark_roots threads refs h) i.closed start bound

  listed : (o : ℕ) → o ≢ 0 → IsPointer h.objects o → contains o h.objects ≡ true
  listed o z p = ground arith

  none_left : (o : ℕ) (xs : List ℕ) → xs ≡ [] → contains o xs ≡ true → ⊥
  unfolding contains
  none_left o [] e c = cc
  none_left o (x ∷ xs) e c = cc

  -- Live objects are marked.
  Live-marked :
      IsHeap threads refs h
      → (o : ℕ) → Live o
      → (contains o h.objects ≡ true) × (after.mark o ≡ true)
  Live-marked i o (root c z) = (
    listed o z
        (All-contains (IsPointer h.objects) (roots_of threads refs h.node h.objects) o i.roots c),
    (after-Inv i).0.from_roots o c z,
  )
  Live-marked i o (child {o = u} r c z) =
      let (l, m) = Live-marked i u r in
      let (inv, empty) = after-Inv i in
      (
        listed o z (All-contains (IsPointer h.objects) (children h.node u) o (i.closed u l) c),
        elim (inv.closed u o l m c z) [
          | inl waiting ↦ absurd (none_left u after.stack empty waiting)
          | inr marked ↦ marked
        ],
      )

  marked_iff :
      IsHeap threads refs h
      → (o : ℕ) → (contains o (sweep after.mark after.objects) ≡ true) ↔ Live o
  marked_iff i o =
      let (inv, empty) = after-Inv i in
      let swept = contains-sweep after.mark after.objects o in
      let same = ap (λ xs. contains o xs) inv.same.0 in
      (
        λ c. inv.sound o (ground (arith, swept, same)) (ground (arith, swept, same)),
        λ r. let (l, m) = Live-marked i o r in ground (arith, swept, same),
      )

-- After a collection of a heap whose pointers and roots lead to listed objects and whose mark stack is empty, an
-- object is in the list exactly if a chain of pointers leads to it from a root; the mark stack is empty again, so
-- the loop has ended.
pub collect-Reach :
    (threads : List Thread) (refs : Refs) (h : Heap)
    → IsHeap threads refs h
    → ((o : ℕ)
        → (contains o (collect threads refs h).1.objects ≡ true)
          ↔ Reach h.node (roots_of threads refs h.node h.objects) o)
      × ((collect threads refs h).1.stack ≡ [])
unfolding collect
collect-Reach threads refs h i = (marked_iff threads refs h i, (after-Inv threads refs h i).1)

collect-node :
    (threads : List Thread) (refs : Refs) (h : Heap)
    → IsHeap threads refs h
    → (collect threads refs h).1.node ≡ h.node
unfolding collect
collect-node threads refs h i = (after-Inv threads refs h i).0.same.1

All-intro {κ} : (P : ℕ → Type κ) (os : List ℕ) → ((w : ℕ) → contains w os ≡ true → P w) → All P os
unfolding contains
All-intro P [] h = tt
All-intro P (o ∷ os) h = (h o (ground arith), All-intro P os (λ w c. h w (ground arith)))

-- No pointer dangles after a collection: those of every object that is left are NULL or lead to objects that
-- are left.
collect-IsClosed :
    (threads : List Thread) (refs : Refs) (h : Heap)
    → IsHeap threads refs h
    → IsClosed (collect threads refs h).1.node (collect threads refs h).1.objects
collect-IsClosed threads refs h i o l =
    let objects = (collect threads refs h).1.objects in
    let (iff, empty) = collect-Reach threads refs h i in
    subst (λ n. All (IsPointer objects) (children n o)) (sym (collect-node threads refs h i))
      (All-intro (IsPointer objects) (children h.node o) λ w c. elim (ℕ_discrete w 0) [
        | yes z ↦ inl z
        | no z ↦ inr ((iff w).1 (child ((iff o).0 l) c z))
      ])

-- In a heap whose pointers and roots lead to listed objects, with an empty mark stack, a collection clears a listed
-- weak reference to a listed object exactly if no chain of pointers leads to the object from a root.
pub collect-weak :
    (threads : List Thread) (refs : Refs) (h : Heap) (v : ℕ)
    → IsHeap threads refs h
    → contains v refs.list ≡ true
    → (refs.cell v).type ≡ weak
    → (refs.cell v).object ≢ 0
    → contains (refs.cell v).object h.objects ≡ true
    → (((collect threads refs h).0.cell v).object ≡ 0)
      ↔ (Reach h.node (roots_of threads refs h.node h.objects) (refs.cell v).object → ⊥)
unfolding collect
collect-weak threads refs h v i c t z l =
    let inv = (after-Inv threads refs h i).0 in
    let cleared = clear_weak-clears (after threads refs h).mark refs.list refs.cell v in
    (
      λ e r.
          weak_kept (contains v refs.list) ((after threads refs h).mark (refs.cell v).object)
            (refs.cell v) (Live-marked threads refs h i (refs.cell v).object r).1 z
            (sym (ap (λ r. r.object) cleared) ∙ e),
      λ dead. elim (Bool-cases ((after threads refs h).mark (refs.cell v).object)) [
        | inl m ↦ absurd (dead (inv.sound (refs.cell v).object l m))
        | inr m ↦ ap (λ r. r.object) cleared ∙ weak_cleared (refs.cell v) c t m
      ],
    )
  where
    weak_kept :
        (listed marked : Bool) (r : Reference)
        → marked ≡ true
        → r.object ≢ 0
        → (if listed && (same_type r.type weak && not marked)
            then record r { object = 0 }
            else r).object
          ≡ 0
        → ⊥
    weak_kept listed marked r m z e = ground arith

    weak_cleared :
        (r : Reference)
        → contains v refs.list ≡ true
        → r.type ≡ weak
        → (after threads refs h).mark r.object ≡ false
        → (if contains v refs.list
              && (same_type r.type weak && not ((after threads refs h).mark r.object))
            then record r { object = 0 }
            else r).object
          ≡ 0
    weak_cleared r c t m = rw c (rw t (rw m refl))
