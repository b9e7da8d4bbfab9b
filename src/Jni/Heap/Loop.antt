-- ===== src/Jni/Heap/Loop.antt =====
-- The invariant of the collector's loop over the mark stack.
use vita_arc.Base.{ℕ, zero, suc, ◌≤◌, ◌≡◌, ◌≢◌, ◌⊎◌, inl, inr, refl, sym, ap, ◌∙◌, true}
use vita_arc.Base.{List, [], ◌∷◌, length, arith, All, Bool-cases, List-cases}
use mathlib.Core.Path.{subst}
use native.Mathlib.Decide.{ℕ_discrete}
use vita_arc.Jni.References.Defs.{contains}
use vita_arc.Jni.Heap.Defs.{Heap, Object, mark_list, mark_children, mark_loop, children}
use vita_arc.Jni.Heap.Marking.{
  mark-mark_list, stack-mark_list, mark_list-rest, work, IsPointer, mark_list-work, All-contains,
}

-- The objects to which the pointers of live objects lead, from some roots.
pub data Reach (node : ℕ → Object) (roots : List ℕ) : ℕ → Type 0 where
  root : {o : ℕ} → contains o roots ≡ true → o ≢ 0 → Reach node roots o
  child :
      {o c : ℕ}
      → Reach node roots o
      → contains c (children node o) ≡ true
      → c ≢ 0
      → Reach node roots c

-- Every pointer of a listed object is NULL or leads to a listed object.
abbrev pub IsClosed : (ℕ → Object) → List ℕ → Type 0
IsClosed node objects =
    (o : ℕ) → contains o objects ≡ true → All (IsPointer objects) (children node o)

length_zero : (xs : List ℕ) → length xs ≡ 0 → xs ≡ []
length_zero [] e = refl
length_zero (x ∷ xs) e = absurd (omega arith)

contains_head : (o : ℕ) (rest : List ℕ) → contains o (o ∷ rest) ≡ true
unfolding contains
contains_head o rest = ground arith

mark_loop-nil : (fuel : ℕ) (h : Heap) → h.stack ≡ [] → mark_loop (suc fuel) h ≡ h
unfolding mark_loop
mark_loop-nil fuel h e = ground arith

mark_loop-cons :
    (fuel : ℕ) (h : Heap) (o : ℕ) (rest : List ℕ)
    → h.stack ≡ o ∷ rest
    → mark_loop (suc fuel) h
      ≡ mark_loop fuel (mark_list (children h.node o) (record h { stack = rest }))
unfolding mark_loop mark_children
mark_loop-cons fuel h o rest e = ground arith

module _ (node : ℕ → Object) (objects roots : List ℕ) where
  pub record Inv (h : Heap) : Type 0 where
    pub same : (h.objects ≡ objects) × (h.node ≡ node)
    pub stacked :
        (v : ℕ) → contains v h.stack ≡ true → (h.mark v ≡ true) × (contains v objects ≡ true)
    pub sound : (v : ℕ) → contains v objects ≡ true → h.mark v ≡ true → Reach node roots v
    pub from_roots : (v : ℕ) → contains v roots ≡ true → v ≢ 0 → h.mark v ≡ true
    pub closed :
        (u v : ℕ)
        → contains u objects ≡ true
        → h.mark u ≡ true
        → contains v (children node u) ≡ true
        → v ≢ 0
        → (contains u h.stack ≡ true) ⊎ (h.mark v ≡ true)

  Inv-mark_children :
      (o : ℕ) (rest : List ℕ) (h : Heap)
      → IsClosed node objects
      → Inv h
      → h.stack ≡ o ∷ rest
      → Inv (mark_list (children node o) (record h { stack = rest }))
  unfolding contains
  Inv-mark_children o rest h k i e =
      let s = record h { stack = rest } in
      let os = children node o in
      let marks = λ (w : ℕ). mark-mark_list os s w in
      let stacks = λ (w : ℕ). stack-mark_list os s w in
      let stack = λ (w : ℕ). ap (λ xs. contains w xs) e in
      let (m, l) = i.stacked o (ground arith) in
      let pointer = λ (w : ℕ). All-contains (IsPointer objects) os w (k o l) in
      record {
        same = ((mark_list-rest os s).0 ∙ i.same.0, (mark_list-rest os s).1 ∙ i.same.1);
        stacked = λ v c. ground (arith, marks v, stacks v, i.stacked v, stack v, pointer v);
        sound = λ v l' m'. elim (Bool-cases (h.mark v)) [
          | inl before ↦ i.sound v l' before
          | inr after ↦ child (i.sound o l m) (ground (arith, marks v)) (ground (arith, marks v))
        ];
        from_roots = λ v c z. ground (arith, marks v, i.from_roots v c z);
        closed = λ u v l' m' c z. elim (ℕ_discrete u o) [
          | yes p ↦
              inr (ground (arith, marks v, subst (λ x. contains v (children node x) ≡ true) p c))
          | no ne ↦ ground (arith, marks u, marks v, stacks u, stack u, i.closed u v)
        ];
      }

  -- The loop ends with an empty stack.
  pub mark_loop-Inv :
      (fuel : ℕ) (h : Heap)
      → IsClosed node objects
      → Inv h
      → work objects h ≤ fuel
      → Inv (mark_loop fuel h) × ((mark_loop fuel h).stack ≡ [])
  unfolding mark_loop
  mark_loop-Inv zero h k i b = (i, length_zero h.stack (omega arith))
  mark_loop-Inv (suc fuel) h k i b = elim (List-cases h.stack) [
    | inl e ↦ subst Ended (sym (mark_loop-nil fuel h e)) (i, e)
    | inr (o, rest, e) ↦
        let s = record h { stack = rest } in
        let next = mark_list (children node o) s in
        let (m, l) = i.stacked o (ap (λ xs. contains o xs) e ∙ contains_head o rest) in
        let less = mark_list-work (children node o) objects s (k o l) in
        subst Ended
          (sym (
            mark_loop-cons fuel h o rest e
            ∙ ap (λ n. mark_loop fuel (mark_list (children n o) s)) i.same.1))
          (mark_loop-Inv fuel next k (Inv-mark_children o rest h k i e)
            (omega (arith, less, ap (λ xs. length xs) e)))
  ]
    where
      Ended : Heap → Type 0
      Ended t = Inv t × (t.stack ≡ [])
