-- ===== src/Jni/References/Invariant.antt =====
-- That creating a local reference keeps the table well formed.
use vita_arc.Base.{
  ℕ, ◌≡◌, Bool, true, false, Option, some, List, [], ◌∷◌, arith, sym, ◌∙◌, ap, Bool-cases, inl, inr,
}
use mathlib.Core.Path.{subst}
use vita_arc.Jni.References.Defs.{Reference, Refs, local, contains, new, link, is_free}
use vita_arc.Jni.References.Table.{Distinct, InUse, contains-InUse}
use vita_arc.Jni.References.Creation.{Fresh, new-links, ensure-list, ensure-listed, local_reference}
use vita_arc.Jni.References.Deletion.{WellFormed, write-InUse}

-- Cells that are the same at each listed address are in use there.
same-InUse :
    (cell cell' : ℕ → Reference) (vs : List ℕ)
    → ((w : ℕ) → contains w vs ≡ true → cell' w ≡ cell w)
    → InUse cell vs
    → InUse cell' vs
unfolding contains
same-InUse cell cell' [] e h = tt
same-InUse cell cell' (x ∷ xs) e h = (
  ap (λ r. is_free r) (e x (ground arith)) ∙ h.0,
  same-InUse cell cell' xs (λ w c. e w (ground arith)) h.1,
)

unlisted :
    (v : ℕ) (s : Refs) → InUse s.cell s.list → is_free (s.cell v) ≡ true → contains v s.list ≡ false
unlisted v s h f = elim (Bool-cases (contains v s.list)) [
  | inl c ↦ absurd (ground (arith, contains-InUse v s.cell s.list h c))
  | inr c ↦ c
]

link-WellFormed :
    (v t object : ℕ) (s : Refs)
    → WellFormed s
    → is_free (s.cell v) ≡ true
    → WellFormed (link v (local_reference t object s) s)
unfolding link
link-WellFormed v t object s h f = (
  (unlisted v s h.1 f, h.0),
  (ground arith, write-InUse v (local_reference t object s) s.cell s.list (unlisted v s h.1 f) h.1),
)

-- Creating a local reference in a well-formed table, in memory that held no listed reference, leaves the table
-- well formed: the new reference was not listed before, and all listed cells are in use.
pub new-WellFormed :
    (t object : ℕ) (allocated : Bool) (block : Option ℕ) (s s' : Refs) (v : ℕ)
    → WellFormed s
    → Fresh t 1 block s
    → new t object local allocated block s ≡ some (v, s')
    → WellFormed s'
new-WellFormed t object allocated block s s' v h k e =
    let (s1, (f, (free, g))) = new-links t object allocated block s s' v e in
    let same = (ensure-list t 1 allocated block s s1 f).0 in
    subst WellFormed (sym g) (
      link-WellFormed v t object s1
        (
          subst Distinct (sym same) h.0,
          subst (λ vs. InUse s1.cell vs) (sym same)
              (same-InUse s.cell s1.cell s.list
                (λ w c. ensure-listed t 1 allocated block s s1 w k f c) h.1),
        )
        free)
