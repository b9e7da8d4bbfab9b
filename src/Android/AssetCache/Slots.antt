-- ===== src/Android/AssetCache/Slots.antt =====
-- The slot that a new folder takes.
use vita_arc.Base.{
  ℕ, zero, suc, ◌+◌, ◌≤◌, ◌≡◌, ◌⊎◌, inl, inr, refl, sym, ap, ◌∙◌, Option, none, some,
}
use vita_arc.Base.{List, [], ◌∷◌, ltb, get_elem?, arith, Bool-cases}
use mathlib.Core.Option.{some-injective}
use vita_arc.Android.AssetCache.Defs.{Folder, slot_from, free_slot}

-- Every folder was used at `least` or later.
abbrev UsedFrom : ℕ → List (Option Folder) → Type 0
UsedFrom least [] = Unit
UsedFrom least (none ∷ fs) = ⊥
UsedFrom least (some f ∷ fs) = (least ≤ f.used) × UsedFrom least fs

UsedFrom-weaken : (m n : ℕ) (fs : List (Option Folder)) → m ≤ n → UsedFrom n fs → UsedFrom m fs
UsedFrom-weaken m n [] h u = tt
UsedFrom-weaken m n (none ∷ fs) h u = u
UsedFrom-weaken m n (some f ∷ fs) h u = (omega (arith, u.0), UsedFrom-weaken m n fs h u.1)

-- What the loop finds: an empty slot, or the best so far if none is older, or an older one.
slot_from-cases :
    (i best least : ℕ) (fs : List (Option Folder))
    → ((k : ℕ) × (slot_from i best least fs ≡ i + k) × (get_elem? fs k ≡ some none))
      ⊎ ((slot_from i best least fs ≡ best) × UsedFrom least fs)
      ⊎ ((k : ℕ) × (f : Folder) × (slot_from i best least fs ≡ i + k)
          × (get_elem? fs k ≡ some (some f))
          × (f.used ≤ least)
          × UsedFrom f.used fs)
unfolding slot_from
slot_from-cases i best least [] = inr (inl (refl, tt))
slot_from-cases i best least (none ∷ fs) = inl (0, omega arith, refl)
slot_from-cases i best least (some f ∷ fs) = elim (Bool-cases (ltb f.used least)) [
  | inr e ↦ elim (slot_from-cases (i + 1) best least fs) [
    | inl (k, s, t) ↦ inl (suc k, ground (arith, s), t)
    | inr (inl (s, u)) ↦ inr (inl (ground (arith, s), (ground arith, u)))
    | inr (inr (k, g, s, t, l, u)) ↦
        inr (inr (suc k, g, ground (arith, s), t, l, (ground arith, u)))
  ]
  | inl e ↦ elim (slot_from-cases (i + 1) i f.used fs) [
    | inl (k, s, t) ↦ inl (suc k, ground (arith, s), t)
    | inr (inl (s, u)) ↦ inr (inr (0, f, ground (arith, s), refl, ground arith, (ground arith, u)))
    | inr (inr (k, g, s, t, l, u)) ↦
        inr (inr (suc k, g, ground (arith, s), t, ground arith, (l, u)))
  ]
]

UsedFrom-at :
    (least j : ℕ) (fs : List (Option Folder)) (f : Option Folder)
    → UsedFrom least fs
    → get_elem? fs j ≡ some f
    → (g : Folder) × (f ≡ some g) × (least ≤ g.used)
UsedFrom-at least j [] f u h = cc
UsedFrom-at least j (none ∷ fs) f u h = absurd u
UsedFrom-at least zero (some g ∷ fs) f u h = (g, sym (some-injective (some g) f h), u.0)
UsedFrom-at least (suc j) (some g ∷ fs) f u h = UsedFrom-at least j fs f u.1 h

free_slot-UsedFrom :
    (f : Option Folder) (fs : List (Option Folder))
    → (get_elem? (f ∷ fs) (free_slot (f ∷ fs)) ≡ some none)
      ⊎ ((g : Folder) × (get_elem? (f ∷ fs) (free_slot (f ∷ fs)) ≡ some (some g))
          × UsedFrom g.used (f ∷ fs))
unfolding free_slot slot_from
free_slot-UsedFrom none fs = inl refl
free_slot-UsedFrom (some f) fs =
    let at = λ (n : ℕ). get_elem? (some f ∷ fs) n in
    elim (slot_from-cases 0 0 f.used (some f ∷ fs)) [
      | inl (k, s, t) ↦ inl (ap at {y = k} (omega (arith, s)) ∙ t)
      | inr (inl (s, u)) ↦ inr (f, ap at s, u)
      | inr (inr (k, g, s, t, l, u)) ↦ inr (g, ap at {y = k} (omega (arith, s)) ∙ t, u)
    ]

-- A new folder takes an empty slot, or the slot of a folder that was not used later than any other folder.
pub free_slot-oldest :
    (fs : List (Option Folder)) (j : ℕ) (g : Folder)
    → get_elem? fs j ≡ some (some g)
    → (get_elem? fs (free_slot fs) ≡ some none)
      ⊎ ((f : Folder) × (get_elem? fs (free_slot fs) ≡ some (some f)) × (f.used ≤ g.used))
free_slot-oldest [] j g h = cc
free_slot-oldest (s ∷ fs) j g h = elim (free_slot-UsedFrom s fs) [
  | inl e ↦ inl e
  | inr (f, e, u) ↦
      let (k, same, le) = UsedFrom-at f.used j (s ∷ fs) (some g) u h in
      inr (f, e, omega (arith, le, ap (λ (x : Folder). x.used) (some-injective g k same)))
]
