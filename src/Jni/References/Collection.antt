-- ===== src/Jni/References/Collection.antt =====
-- What the collector's walks and the pins do.
use vita_arc.Base.{ℕ, ◌+◌, ◌-◌, ◌%◌, ◌^◌, ◌≡◌, ◌≢◌, ◌≤◌, ◌<◌, Bool, not, ◌&&◌, none, some}
use vita_arc.Base.{
  List, [], ◌∷◌, ◌==◌, if◌then◌else◌, All, arith, inl, inr, Bool-cases, Option-cases, sym, ap,
}
use vita_arc.Jni.References.Defs.{Reference, Refs, weak}
use vita_arc.Jni.References.Defs.{contains, find, same_type, write_cell}
use vita_arc.Jni.References.Frames.{
  owned, keep_owned, clear_globals, clear_weak, Pin, raise_pin, pin, unpin,
}
use native.Mathlib.Decide.{ℕ_discrete}
use mathlib.Core.Path.{subst}

-- One round of the walk.
abbrev clear_one : (ℕ → Bool) → ℕ → (ℕ → Reference) → ℕ → Reference
clear_one alive x cell =
    if same_type (cell x).type weak && not ((cell x).object == 0) && not (alive (cell x).object)
    then write_cell cell x (record (cell x) { object = 0 })
    else cell

abbrev cleared : Reference → Reference
cleared r = record r { object = 0 }

cleared_same : (r : Reference) → r.object ≡ 0 → cleared r ≡ r
cleared_same r e = ap (λ o. record r { object = o }) (sym e)

clear_one_self :
    (alive : ℕ → Bool) (x : ℕ) (cell : ℕ → Reference)
    → clear_one alive x cell x ≡ (
        if same_type (cell x).type weak && not (alive (cell x).object)
        then cleared (cell x)
        else cell x)
clear_one_self alive x cell = ground (arith, cleared_same (cell x))

clear_one_other :
    (alive : ℕ → Bool) (x v : ℕ) (cell : ℕ → Reference) → x ≢ v → clear_one alive x cell v ≡ cell v
clear_one_other alive x v cell ne = ground arith

abbrev dead_weak : (ℕ → Bool) → Reference → Bool
dead_weak alive r = same_type r.type weak && not (alive r.object)

-- The collection clears the object of each listed weak reference whose object is not alive, and nothing else.
pub clear_weak-clears :
    (alive : ℕ → Bool) (vs : List ℕ) (cell : ℕ → Reference) (v : ℕ)
    → clear_weak alive vs cell v ≡ (
        if contains v vs && (same_type (cell v).type weak && not (alive (cell v).object))
        then record (cell v) { object = 0 }
        else cell v)
unfolding clear_weak contains
clear_weak-clears alive [] cell v = ground arith
clear_weak-clears alive (x ∷ xs) cell v =
    let ih = λ (w : ℕ). clear_weak-clears alive xs (clear_one alive x cell) w in
    elim (ℕ_discrete x v) [
      | yes p ↦
          subst
            (λ v. clear_weak alive (x ∷ xs) cell v ≡ (
              if contains v (x ∷ xs) && dead_weak alive (cell v) then cleared (cell v) else cell v))
            p
            (elim (Bool-cases (dead_weak alive (cell x))) [
              | inl c ↦ ground (arith, ih x, clear_one_self alive x cell)
              | inr c ↦ ground (arith, ih x, clear_one_self alive x cell)
            ])
      | no ne ↦ ground (arith, ih v, clear_one_other alive x v cell ne)
    ]

keep_owned-contains :
    (cell : ℕ → Reference) (v : ℕ) (vs : List ℕ)
    → contains v (keep_owned cell vs) ≡ contains v vs && owned (cell v).owner
unfolding contains
keep_owned-contains cell v [] = ground arith
keep_owned-contains cell v (x ∷ xs) = elim (ℕ_discrete x v) [
  | yes p ↦ elim (Bool-cases (owned (cell v).owner)) [
    | inl o ↦ ground (arith, ap (λ y. owned (cell y).owner) p)
    | inr o ↦ ground (arith, keep_owned-contains cell v xs, ap (λ y. owned (cell y).owner) p)
  ]
  | no ne ↦ ground (arith, keep_owned-contains cell v xs)
]

-- `jni_refs_clear_globals` removes the references that no thread owns, and no other.
clear_globals-keeps :
    (v : ℕ) (s : Refs)
    → find v (clear_globals s) ≡ (if owned (s.cell v).owner then find v s else none)
unfolding find clear_globals
clear_globals-keeps v s = ground (arith, keep_owned-contains s.cell v s.list)

raise_pin-none :
    (object : ℕ) (ps : List Pin)
    → raise_pin object ps ≡ none
    → unpin object (record { object = object; count = 1 } ∷ ps) ≡ some ps
unfolding unpin
raise_pin-none object ps e = ground arith

back : (c : ℕ) → c < 2 ^ 32 - 1 → ((c + 1) % 2 ^ 32 + (2 ^ 32 - 1)) % 2 ^ 32 ≡ c
back c h = omega arith

raise_pin-unpin :
    (object : ℕ) (ps ps' : List Pin)
    → All (λ p. (1 ≤ p.count) × (p.count < 2 ^ 32 - 1)) ps
    → raise_pin object ps ≡ some ps'
    → unpin object ps' ≡ some ps
unfolding unpin raise_pin
raise_pin-unpin object [] ps' h e = cc
raise_pin-unpin object (p ∷ ps) ps' h e = elim (ℕ_discrete p.object object) [
  | yes k ↦
      ground (arith, back p.count h.0.1, ap (λ c. record p { count = c }) (back p.count h.0.1))
  | no ne ↦ elim (Option-cases (raise_pin object ps)) [
    | inl f ↦ ground arith
    | inr (qs, f) ↦ ground (arith, raise_pin-unpin object ps qs h.1 f)
  ]
]

-- `jni_refs_unpin` undoes `jni_refs_pin` on pins whose counts are positive and not the greatest of 32 bits.
pin-unpin :
    (object : ℕ) (allocated : Bool) (ps ps' : List Pin)
    → All (λ p. (1 ≤ p.count) × (p.count < 2 ^ 32 - 1)) ps
    → pin object allocated ps ≡ some ps'
    → unpin object ps' ≡ some ps
unfolding pin unpin
pin-unpin object allocated ps ps' h e = elim (Option-cases (raise_pin object ps)) [
  | inl f ↦ ground arith
  | inr (qs, f) ↦ ground (arith, raise_pin-unpin object ps qs h f)
]
