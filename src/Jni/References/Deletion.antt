-- ===== src/Jni/References/Deletion.antt =====
-- What deleting references and popping frames do to the table.
use vita_arc.Base.{ℕ, ◌≡◌, Bool, false, ◌&&◌, none, some}
use vita_arc.Base.{List, [], ◌∷◌, ◌==◌, if◌then◌else◌, arith, inl, inr, Bool-cases}
use vita_arc.Jni.References.Defs.{RefType, Reference, Refs, invalid}
use vita_arc.Jni.References.Defs.{contains, find, visible, same_type, write_cell}
use vita_arc.Jni.References.Frames.{remove_first, unlink, delete}
use vita_arc.Jni.References.Table.{Distinct, InUse}

-- The list holds no reference twice, and those in it are in use.
abbrev pub WellFormed : Refs → Type 0
WellFormed s = Distinct s.list × InUse s.cell s.list

contains-remove :
    (v w : ℕ) (vs : List ℕ)
    → Distinct vs
    → contains w (remove_first v vs) ≡ (if v == w then false else contains w vs)
unfolding contains
contains-remove v w [] d = ground arith
contains-remove v w (x ∷ xs) d = ground (arith, contains-remove v w xs d.1)

remove-Distinct : (v : ℕ) (vs : List ℕ) → Distinct vs → Distinct (remove_first v vs)
unfolding contains
remove-Distinct v [] d = tt
remove-Distinct v (x ∷ xs) d = ground (arith, contains-remove v x xs d.1, remove-Distinct v xs d.1)

pub write-InUse :
    (v : ℕ) (r : Reference) (cell : ℕ → Reference) (vs : List ℕ)
    → contains v vs ≡ false
    → InUse cell vs
    → InUse (write_cell cell v r) vs
unfolding contains
write-InUse v r cell [] n h = tt
write-InUse v r cell (x ∷ xs) n h = ground (arith, write-InUse v r cell xs)

remove-InUse :
    (v : ℕ) (cell : ℕ → Reference) (vs : List ℕ) → InUse cell vs → InUse cell (remove_first v vs)
remove-InUse v cell [] h = tt
remove-InUse v cell (x ∷ xs) h = ground (arith, remove-InUse v cell xs h.1)

pub find-unlink :
    (v w : ℕ) (s : Refs) → WellFormed s → find w (unlink v s) ≡ (if v == w then none else find w s)
unfolding find unlink
find-unlink v w s h = ground (arith, contains-remove v w s.list h.0)

pub unlink-WellFormed : (v : ℕ) (s : Refs) → WellFormed s → WellFormed (unlink v s)
unfolding unlink
unlink-WellFormed v s h = (
  remove-Distinct v s.list h.0,
  write-InUse v (record (s.cell v) { object = 0; type = invalid }) s.cell (remove_first v s.list)
      (ground (arith, contains-remove v v s.list h.0)) (remove-InUse v s.cell s.list h.1),
)

-- The reference that a deletion is for: a listed one of that type that the thread sees.
unfoldable pub may_delete : ℕ → ℕ → RefType → Refs → Bool
may_delete t v type s = elim (find v s) [
  | none ↦ false
  | some r ↦ same_type r.type type && visible t r
]

-- A deletion removes that reference and leaves every other, and the table stays well formed; of the wrong
-- type, of another thread's local reference or of an address that is no reference it changes nothing.
pub delete-find :
    (t v : ℕ) (type : RefType) (s : Refs)
    → WellFormed s
    → WellFormed (delete t v type s)
      × (((w : ℕ)
            → find w (delete t v type s)
              ≡ (if may_delete t v type s && v == w then none else find w s))
          × (may_delete t v type s ≡ false → delete t v type s ≡ s))
unfolding delete may_delete
delete-find t v type s h = elim (Bool-cases (may_delete t v type s)) [
  | inl c ↦ (
    ground (arith, unlink-WellFormed v s h),
    (λ w. ground (arith, find-unlink v w s h), λ n. ground arith),
  )
  | inr c ↦ (ground arith, (λ w. ground arith, λ n. ground arith))
]
