-- ===== src/Jni/References/Creation.antt =====
-- What creating a reference does to the table.
use vita_arc.Base.{ℕ, zero, suc, ◌-◌, ◌≡◌, ◌≢◌, ◌≤◌, Bool, true, Option, none, some}
use vita_arc.Base.{[], ◌∷◌, ltb, if◌then◌else◌, arith, refl}
use vita_arc.Jni.References.Defs.{Reference, Refs, local}
use vita_arc.Jni.References.Defs.{contains, find, visible, resolve, type_of, is_new_local}
use vita_arc.Jni.References.Defs.{clear_cells, reserve, push, ensure, free_slot, local_slot}
use vita_arc.Jni.References.Defs.{link, new, is_free, available, free_cells, top_blocks}
use vita_arc.Jni.References.Table.{Unlisted, free_slot-IsFree, free_slot-none, clear_cells-listed}
use vita_arc.Base.{Option-cases, Bool-cases, inl, inr, sym, ◌∙◌}
use mathlib.Core.Path.{subst}

-- The cells of the block that `jni_refs_ensure` asks for.
abbrev block_size : ℕ → ℕ → Refs → ℕ
block_size t capacity s = elim (s.frames t) [
  | [] ↦ if ltb 32 capacity then capacity else 32
  | f ∷ fs ↦ capacity - available s.cell f.blocks
]

-- What `calloc` returns for it holds no listed reference.
abbrev pub Fresh : ℕ → ℕ → Option ℕ → Refs → Type 0
Fresh t capacity none s = Unit
Fresh t capacity (some base) s = Unlisted base (block_size t capacity s) s.list

pub ensure-list :
    (t k : ℕ) (allocated : Bool) (block : Option ℕ) (s s' : Refs)
    → ensure t k allocated block s ≡ some s'
    → (s'.list ≡ s.list) × (s'.serial ≡ s.serial)
unfolding ensure push reserve
ensure-list t k allocated none s s' e = ground arith
ensure-list t k allocated (some b) s s' e = ground arith

pub ensure-listed :
    (t k : ℕ) (allocated : Bool) (block : Option ℕ) (s s' : Refs) (v : ℕ)
    → Fresh t k block s
    → ensure t k allocated block s ≡ some s'
    → contains v s.list ≡ true
    → s'.cell v ≡ s.cell v
unfolding ensure push reserve
ensure-listed t k allocated none s s' v h e c = ground arith
ensure-listed t k allocated (some b) s s' v h e c =
    ground (arith, clear_cells-listed s.cell b (block_size t k s) v s.list h c)

clear_cells-first :
    (cell : ℕ → Reference) (base n : ℕ) → 1 ≤ n → 1 ≤ free_cells (clear_cells cell base n) base n
unfolding free_cells clear_cells
clear_cells-first cell base zero h = elim h [ ]
clear_cells-first cell base (suc n) h = ground arith

ensure-available :
    (t k : ℕ) (allocated : Bool) (block : Option ℕ) (s s' : Refs)
    → ensure t (suc k) allocated block s ≡ some s'
    → 1 ≤ available s'.cell (top_blocks (s'.frames t))
unfolding ensure push reserve available free_cells clear_cells
ensure-available t k allocated none s s' e = ground arith
ensure-available t k allocated (some b) s s' e =
    ground (arith, clear_cells-first s.cell b (block_size t (suc k) s))

-- The slot that `__local_slot` finds is free, and it finds one when the frame has room.
local_slot-IsFree :
    (t : ℕ) (allocated : Bool) (block : Option ℕ) (s s' : Refs) (v : ℕ)
    → local_slot t allocated block s ≡ some (v, s')
    → (ensure t 1 allocated block s ≡ some s') × (is_free (s'.cell v) ≡ true)
unfolding local_slot
local_slot-IsFree t allocated block s s' v e = elim (Option-cases (ensure t 1 allocated block s)) [
  | inl f ↦ ground arith
  | inr (s1, f) ↦ elim (Option-cases (free_slot s1.cell (top_blocks (s1.frames t)))) [
    | inl g ↦ ground arith
    | inr (w, g) ↦ ground (arith, free_slot-IsFree s1.cell (top_blocks (s1.frames t)) w g)
  ]
]

local_slot-some :
    (t : ℕ) (allocated : Bool) (block : Option ℕ) (s s' : Refs)
    → ensure t 1 allocated block s ≡ some s'
    → (v : ℕ) × (local_slot t allocated block s ≡ some (v, s'))
unfolding local_slot
local_slot-some t allocated block s s' e =
    elim (Option-cases (free_slot s'.cell (top_blocks (s'.frames t)))) [
      | inl g ↦ absurd (
          omega (
            arith,
            free_slot-none s'.cell (top_blocks (s'.frames t)) g,
            ensure-available t 0 allocated block s s' e,
          ))
      | inr (v, g) ↦ (v, rw (local_slot, e) (rw g refl))
    ]

link-resolve :
    (v : ℕ) (r : Reference) (s : Refs) (u w : ℕ) → w ≢ v → resolve u w (link v r s) ≡ resolve u w s
unfolding link resolve find contains visible
link-resolve v r s u w ne = ground arith

-- A cell that the list does not hold matters to no listed reference.
find-same :
    (w : ℕ) (s s' : Refs)
    → s'.list ≡ s.list
    → (contains w s.list ≡ true → s'.cell w ≡ s.cell w)
    → find w s' ≡ find w s
unfolding find
find-same w s s' e h = elim (Bool-cases (contains w s.list)) [
  | inl c ↦ ground (arith, h c)
  | inr c ↦ ground arith
]

resolve-same :
    (u w : ℕ) (s s' : Refs)
    → s'.list ≡ s.list
    → (contains w s.list ≡ true → s'.cell w ≡ s.cell w)
    → resolve u w s' ≡ resolve u w s
unfolding resolve
resolve-same u w s s' e h = ground (arith, find-same w s s' e h)

-- The reference that a call by the thread `t` links.
abbrev pub local_reference : ℕ → ℕ → Refs → Reference
local_reference t object s = record {
  object = object;
  type = local;
  owner = some t;
  call_serial = s.serial t;
}

pub new-links :
    (t object : ℕ) (allocated : Bool) (block : Option ℕ) (s s' : Refs) (v : ℕ)
    → new t object local allocated block s ≡ some (v, s')
    → (s1 : Refs) × ((ensure t 1 allocated block s ≡ some s1)
        × ((is_free (s1.cell v) ≡ true) × (s' ≡ link v (local_reference t object s1) s1)))
unfolding new
new-links t object allocated block s s' v e = elim (Option-cases (local_slot t allocated block s)) [
  | inl f ↦ absurd (ground arith)
  | inr ((w, s1), f) ↦
      let (p, q) = local_slot-IsFree t allocated block s s1 w f in
      (s1, (p, (ground arith, ground arith)))
]

link-local :
    (t object v : ℕ) (s : Refs)
    → let s' = link v (local_reference t object s) s in
      (resolve t v s' ≡ object)
      × ((type_of t v s' ≡ local)
          × ((is_new_local t v s' ≡ true) × ((u : ℕ) → u ≢ t → resolve u v s' ≡ 0)))
unfolding link resolve type_of is_new_local find contains visible
link-local t object v s = ground arith

-- A local reference that `jni_refs_new` made: the calling thread resolves it to the object, and it is a
-- local one, new in this call; no other thread can resolve it; every other reference resolves as before,
-- if the memory that `calloc` returned held no listed reference.
pub new-local :
    (t object : ℕ) (allocated : Bool) (block : Option ℕ) (s s' : Refs) (v : ℕ)
    → Fresh t 1 block s
    → new t object local allocated block s ≡ some (v, s')
    → ((resolve t v s' ≡ object)
        × ((type_of t v s' ≡ local)
            × ((is_new_local t v s' ≡ true) × ((u : ℕ) → u ≢ t → resolve u v s' ≡ 0))))
      × ((u w : ℕ) → w ≢ v → resolve u w s' ≡ resolve u w s)
new-local t object allocated block s s' v h e =
    let (s1, (f, (free, g))) = new-links t object allocated block s s' v e in
    subst
      (λ x.
        ((resolve t v x ≡ object)
          × ((type_of t v x ≡ local)
              × ((is_new_local t v x ≡ true) × ((u : ℕ) → u ≢ t → resolve u v x ≡ 0))))
        × ((u w : ℕ) → w ≢ v → resolve u w x ≡ resolve u w s))
      (sym g)
      (
        link-local t object v s1,
        λ u w ne.
            link-resolve v (local_reference t object s1) s1 u w ne
            ∙ resolve-same u w s s1 (ensure-list t 1 allocated block s s1 f).0
                (ensure-listed t 1 allocated block s s1 w h f),
      )

-- A call for a local reference to an object fails only when `jni_refs_ensure` for one slot does.
new-local_fails :
    (t object : ℕ) (allocated : Bool) (block : Option ℕ) (s : Refs)
    → object ≢ 0
    → new t object local allocated block s ≡ none
    → ensure t 1 allocated block s ≡ none
unfolding new
new-local_fails t object allocated block s ne e =
    elim (Option-cases (ensure t 1 allocated block s)) [
      | inl f ↦ f
      | inr (s', f) ↦ let (v, g) = local_slot-some t allocated block s s' f in absurd (ground arith)
    ]
