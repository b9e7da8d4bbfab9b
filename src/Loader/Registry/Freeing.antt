-- ===== src/Loader/Registry/Freeing.antt =====
-- When loader_free_library unmaps a library, and what it never does again.
use vita_arc.Base.{ℕ, ◌-◌, ◌≡◌, ◌⊎◌, ◌↔◌, inl, inr, ap, true, false, not, ◌&&◌, Option, none, some}
use vita_arc.Base.{List, [], ◌∷◌, if◌then◌else◌, suc, Bool, ltb, ◌==◌, set, arith, Bool-cases}
use vita_arc.Loader.Registry.Defs.{
  Entry, Registry, Event, constructor, destructor, prepared, finished, finalized_range, unmapped,
  entry_at,
}
use vita_arc.Loader.Registry.Release.{Closing, closed, release, free_library}
use vita_arc.Loader.Registry.Slots.{entry_at-length, entry_at-set}

-- The conditions for unmapping.
abbrev IsReleasable : Closing → Entry → Type 0
IsReleasable c e =
    (e.refs ≡ 1)
    × (c.busy ≡ false)
    × ((e.prepare ≡ false) ⊎ (c.prepares ≡ true))
    × (c.destroys ≡ true)

filled :
    (ss : List (Option Entry)) (i : ℕ) (e d : Entry)
    → entry_at ss i ≡ some e
    → entry_at (set ss i (some d)) i ≡ some d
filled ss i e d t = ground (arith, entry_at-set ss i i (some d) (entry_at-length ss i e t))

emptied :
    (ss : List (Option Entry)) (i : ℕ) (e : Entry)
    → entry_at ss i ≡ some e
    → entry_at (set ss i none) i ≡ none
emptied ss i e t = ground (arith, entry_at-set ss i i none (entry_at-length ss i e t))

free_slots :
    (c : Closing) (i : ℕ) (e : Entry) (r : Registry)
    → entry_at r.slots i ≡ some e
    → ((e.refs ≡ 0) × ((free_library c i r).slots ≡ r.slots))
      ⊎ (IsReleasable c e × ((free_library c i r).slots ≡ set r.slots i none))
      ⊎ ((¬ IsReleasable c e) × (d : Entry) × ((free_library c i r).slots ≡ set r.slots i (some d)))
unfolding free_library release closed
free_slots c i e r t = elim (Bool-cases (e.refs == 0)) [
  | inl z ↦ inl (ground arith, ground arith)
  | inr z ↦ elim (Bool-cases (ltb 0 (e.refs - 1))) [
    | inl m ↦ inr (inr (λ h. ground (arith, h), record e { refs = e.refs - 1 }, ground arith))
    | inr m ↦ elim (Bool-cases c.busy) [
      | inl b ↦ inr (inr (λ h. ground (arith, h), record e { refs = 1 }, ground arith))
      | inr b ↦ elim (Bool-cases (e.prepare && not c.prepares)) [
        | inl p ↦
            inr
              (inr (λ h. ground (arith, h), record e { refs = 1; unloading = false }, ground arith))
        | inr p ↦ elim (Bool-cases c.destroys) [
          | inr d ↦ inr (inr (λ h. ground (arith, h), record (closed e) { refs = 1 }, ground arith))
          | inl d ↦ inr (inl ((ground arith, b, ground arith, d), ground arith))
        ]
      ]
    ]
  ]
]

-- A slot is emptied by loader_free_library exactly when the last handle is given back, no synchronization in
-- the library is in use, its preparation succeeds or has none, and its synchronization could be destroyed.
pub free_empties :
    (c : Closing) (i : ℕ) (e : Entry) (r : Registry)
    → entry_at r.slots i ≡ some e
    → (entry_at (free_library c i r).slots i ≡ none) ↔ (
        (e.refs ≡ 1)
        × (c.busy ≡ false)
        × ((e.prepare ≡ false) ⊎ (c.prepares ≡ true))
        × (c.destroys ≡ true))
free_empties c i e r t = elim (free_slots c i e r t) [
  | inl (z, s) ↦ ground (arith, ap (λ ss. entry_at ss i) s)
  | inr (inl (h, s)) ↦ ground (arith, h, ap (λ ss. entry_at ss i) s, emptied r.slots i e t)
  | inr (inr (h, d, s)) ↦ ground (arith, h, ap (λ ss. entry_at ss i) s, filled r.slots i e d t)
]

-- Whether an event is a call of a library's function or hook.
abbrev is_call : Event → Bool
is_call (constructor i f) = true
is_call (destructor i f) = true
is_call (prepared i) = true
is_call (finished i) = true
is_call (finalized_range base size) = false
is_call (unmapped blocks) = false

-- How many calls of functions and hooks there were.
unfoldable pub calls : List Event → ℕ
calls [] = 0
calls (e ∷ es) = if is_call e then suc (calls es) else calls es

-- The release is tried again, as often as there are answers.
unfoldable pub retries : List Closing → ℕ → Registry → Registry
unfolding free_library
retries [] i r = r
retries (c ∷ cs) i r = retries cs i (free_library c i r)

-- A slot that is empty, or whose library is marked and has nothing left to call.
abbrev IsQuiet : ℕ → Registry → Type 0
IsQuiet i r =
    (entry_at r.slots i ≡ none)
    ⊎ ((d : Entry) × (entry_at r.slots i ≡ some d)
        × (d.unloading ≡ true)
        × (d.initialized ≡ false)
        × (d.prepare ≡ false)
        × (d.finish ≡ false))
