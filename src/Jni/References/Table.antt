-- ===== src/Jni/References/Table.antt =====
-- What creating a reference does to the table.
use vita_arc.Base.{ℕ, zero, suc, ◌+◌, ◌≡◌, true, false, ◌&&◌, none, some}
use vita_arc.Base.{List, [], ◌∷◌, ltb, leb, All, arith, refl}
use vita_arc.Jni.References.Defs.{Reference, Block}
use vita_arc.Jni.References.Defs.{contains}
use vita_arc.Jni.References.Defs.{clear_cells, free_slot, first_free}
use vita_arc.Jni.References.Defs.{is_free, available, free_cells}
use vita_arc.Base.{Option-cases, Bool-cases, inl, inr}
use native.Mathlib.Decide.{ℕ_discrete}
use mathlib.Core.Path.{subst}

-- No reference occurs twice in the list, and those in it are in use.
abbrev pub Distinct : List ℕ → Type 0
Distinct [] = Unit
Distinct (x ∷ xs) = (contains x xs ≡ false) × Distinct xs

abbrev pub InUse : (ℕ → Reference) → List ℕ → Type 0
InUse cell vs = All (λ v. is_free (cell v) ≡ false) vs

-- `calloc` returns memory that holds no listed reference.
abbrev pub Unlisted : ℕ → ℕ → List ℕ → Type 0
Unlisted base n vs = All (λ v. (leb base v && ltb v (base + n)) ≡ false) vs

pub contains-InUse :
    (v : ℕ) (cell : ℕ → Reference) (vs : List ℕ)
    → InUse cell vs
    → contains v vs ≡ true
    → is_free (cell v) ≡ false
unfolding contains
contains-InUse v cell [] h e = cc
contains-InUse v cell (x ∷ xs) h e = elim (ℕ_discrete x v) [
  | yes p ↦ subst (λ y. is_free (cell y) ≡ false) p h.0
  | no ne ↦ contains-InUse v cell xs h.1 (ground arith)
]

first_free-IsFree :
    (cell : ℕ → Reference) (base n v : ℕ)
    → first_free cell base n ≡ some v
    → is_free (cell v) ≡ true
unfolding first_free
first_free-IsFree cell base zero v e = cc
first_free-IsFree cell base (suc n) v e = elim (Bool-cases (is_free (cell base))) [
  | inl f ↦ subst (λ y. is_free (cell y) ≡ true) (ground arith) f
  | inr f ↦ first_free-IsFree cell (base + 1) n v (ground arith)
]

pub free_slot-IsFree :
    (cell : ℕ → Reference) (bs : List Block) (v : ℕ)
    → free_slot cell bs ≡ some v
    → is_free (cell v) ≡ true
unfolding free_slot
free_slot-IsFree cell [] v e = cc
free_slot-IsFree cell (b ∷ bs) v e = elim (Option-cases (first_free cell b.base b.capacity)) [
  | inl f ↦ free_slot-IsFree cell bs v (ground arith)
  | inr (w, f) ↦ first_free-IsFree cell b.base b.capacity v (ground arith)
]

-- A fresh block changes no listed reference.
pub clear_cells-listed :
    (cell : ℕ → Reference) (base n v : ℕ) (vs : List ℕ)
    → Unlisted base n vs
    → contains v vs ≡ true
    → clear_cells cell base n v ≡ cell v
unfolding clear_cells contains
clear_cells-listed cell base n v [] h e = cc
clear_cells-listed cell base n v (x ∷ xs) h e = elim (ℕ_discrete x v) [
  | yes p ↦ rw (subst (λ y. (leb base y && ltb y (base + n)) ≡ false) p h.0)
  | no ne ↦ clear_cells-listed cell base n v xs h.1 (ground arith)
]

first_free-none :
    (cell : ℕ → Reference) (base n : ℕ) → first_free cell base n ≡ none → free_cells cell base n ≡ 0
unfolding first_free free_cells
first_free-none cell base zero e = refl
first_free-none cell base (suc n) e = ground (arith, first_free-none cell (base + 1) n)

-- A frame with a free cell has a slot to give.
pub free_slot-none :
    (cell : ℕ → Reference) (bs : List Block) → free_slot cell bs ≡ none → available cell bs ≡ 0
unfolding free_slot available
free_slot-none cell [] e = refl
free_slot-none cell (b ∷ bs) e =
    ground (arith, first_free-none cell b.base b.capacity, free_slot-none cell bs)
