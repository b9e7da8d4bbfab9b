-- ===== src/Jni/Heap/Marking.antt =====
-- What marking does to the marks and to the stack.
use vita_arc.Base.{
  ℕ, suc, ◌+◌, ◌≤◌, ◌≡◌, ◌⊎◌, inl, inr, refl, ap, Bool, true, false, not, ◌&&◌, ◌||◌,
}
use vita_arc.Base.{List, [], ◌∷◌, ◌++◌, ◌==◌, if◌then◌else◌, length, arith, All, Bool-cases}
use mathlib.Core.Path.{subst}
use native.Mathlib.Decide.{ℕ_discrete}
use vita_arc.Jni.References.Defs.{contains}
use vita_arc.Jni.Heap.Defs.{Heap, mark_object, mark_list, clear_marks}

pub mark-mark_list :
    (os : List ℕ) (h : Heap) (w : ℕ)
    → (mark_list os h).mark w ≡ h.mark w || (contains w os && not (w == 0))
unfolding mark_list mark_object contains
mark-mark_list [] h w = ground arith
mark-mark_list (o ∷ os) h w = ground (arith, mark-mark_list os (mark_object o h) w)

pub stack-mark_list :
    (os : List ℕ) (h : Heap) (w : ℕ)
    → contains w (mark_list os h).stack
      ≡ contains w h.stack || (not (h.mark w) && (contains w os && not (w == 0)))
unfolding mark_list mark_object contains
stack-mark_list [] h w = ground arith
stack-mark_list (o ∷ os) h w = ground (arith, stack-mark_list os (mark_object o h) w)

pub mark_list-rest :
    (os : List ℕ) (h : Heap)
    → ((mark_list os h).objects ≡ h.objects) × ((mark_list os h).node ≡ h.node)
unfolding mark_list mark_object
mark_list-rest [] h = (refl, refl)
mark_list-rest (o ∷ os) h = ground (arith, mark_list-rest os (mark_object o h))

-- The objects of a list whose mark is not set.
unfoldable pub unmarked : (ℕ → Bool) → List ℕ → ℕ
unmarked mark [] = 0
unmarked mark (o ∷ os) = (if mark o then 0 else 1) + unmarked mark os

pub unmarked-le : (mark : ℕ → Bool) (os : List ℕ) → unmarked mark os ≤ length os
unfolding unmarked
unmarked-le mark [] = omega arith
unmarked-le mark (o ∷ os) = ground (arith, unmarked-le mark os)

abbrev set_mark : (ℕ → Bool) → ℕ → ℕ → Bool
set_mark mark o v = if v == o then true else mark v

unmarked-set_le :
    (mark : ℕ → Bool) (o : ℕ) (os : List ℕ) → unmarked (set_mark mark o) os ≤ unmarked mark os
unfolding unmarked
unmarked-set_le mark o [] = omega arith
unmarked-set_le mark o (x ∷ xs) = ground (arith, unmarked-set_le mark o xs)

unmarked-set_lt :
    (mark : ℕ → Bool) (o : ℕ) (os : List ℕ)
    → contains o os ≡ true
    → mark o ≡ false
    → suc (unmarked (set_mark mark o) os) ≤ unmarked mark os
unfolding unmarked contains
unmarked-set_lt mark o [] c e = cc
unmarked-set_lt mark o (x ∷ xs) c e = elim (ℕ_discrete x o) [
  | yes p ↦ ground (arith, unmarked-set_le mark o xs, ap mark p)
  | no ne ↦ ground (arith, unmarked-set_lt mark o xs)
]

-- What is left to do: the unmarked objects, and those on the stack.
abbrev pub work : List ℕ → Heap → ℕ
work objects h = unmarked h.mark objects + length h.stack

-- NULL or an object of the list.
abbrev pub IsPointer : List ℕ → ℕ → Type 0
IsPointer objects o = (o ≡ 0) ⊎ (contains o objects ≡ true)

mark_object-work :
    (o : ℕ) (objects : List ℕ) (h : Heap)
    → IsPointer objects o
    → work objects (mark_object o h) ≤ work objects h
unfolding mark_object
mark_object-work o objects h p = elim (Bool-cases (h.mark o)) [
  | inl e ↦ ground arith
  | inr e ↦ ground (arith, unmarked-set_lt h.mark o objects)
]

pub mark_list-work :
    (os objects : List ℕ) (h : Heap)
    → All (IsPointer objects) os
    → work objects (mark_list os h) ≤ work objects h
unfolding mark_list
mark_list-work [] objects h p = omega arith
mark_list-work (o ∷ os) objects h p =
    omega (arith, mark_object-work o objects h p.0, mark_list-work os objects (mark_object o h) p.1)

pub contains-append :
    (w : ℕ) (xs ys : List ℕ) → contains w (xs ++ ys) ≡ contains w xs || contains w ys
unfolding contains
contains-append w [] ys = refl
contains-append w (x ∷ xs) ys = ground (arith, contains-append w xs ys)

pub mark_list-append :
    (xs ys : List ℕ) (h : Heap) → mark_list (xs ++ ys) h ≡ mark_list ys (mark_list xs h)
unfolding mark_list
mark_list-append [] ys h = refl
mark_list-append (x ∷ xs) ys h = mark_list-append xs ys (mark_object x h)

pub clear_marks-listed :
    (os : List ℕ) (mark : ℕ → Bool) (w : ℕ) → clear_marks os mark w ≡ mark w && not (contains w os)
unfolding clear_marks contains
clear_marks-listed [] mark w = ground arith
clear_marks-listed (o ∷ os) mark w =
    ground (arith, clear_marks-listed os (λ v. if v == o then false else mark v) w)

pub All-contains {κ} :
    (P : ℕ → Type κ) (os : List ℕ) (w : ℕ) → All P os → contains w os ≡ true → P w
unfolding contains
All-contains P [] w h c = cc
All-contains P (o ∷ os) w h c = elim (ℕ_discrete o w) [
  | yes p ↦ subst P p h.0
  | no ne ↦ All-contains P os w h.1 (ground arith)
]
