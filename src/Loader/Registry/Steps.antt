-- ===== src/Loader/Registry/Steps.antt =====
-- The initializers and the release on well-formed tables, and every sequence of operations.
use vita_arc.Base.{ℕ, ◌-◌, ◌≡◌, ◌⊎◌, inl, inr, refl, sym, true, false, not, ◌&&◌, none, some}
use vita_arc.Base.{List, [], ltb, ◌==◌, set, replicate, arith, Bool-cases, Option-cases}
use mathlib.Core.Path.{subst}
use vita_arc.Loader.Registry.Defs.{Entry, Registry, slot_limit, entry_at, clone_handle}
use vita_arc.Loader.Registry.Life.{Host, load_library}
use vita_arc.Loader.Registry.Release.{Closing, closed, release, free_library, init_library}
use vita_arc.Loader.Registry.Slots.{occupied_bound, occupied-set-none}
use vita_arc.Loader.Registry.Invariant.{WellFormed, IsSettled, change-WellFormed, remove-WellFormed}
use vita_arc.Loader.Registry.Outcomes.{clone_handle-WellFormed, load_library-WellFormed}

init_library-cases :
    (i : ℕ) (r : Registry)
    → ((init_library i r).1 ≡ r)
      ⊎ ((e : Entry) × (entry_at r.slots i ≡ some e)
          × (e.unloading ≡ false)
          × ((init_library i r).1.slots ≡ set r.slots i (some (record e { initialized = true })))
          × ((init_library i r).1.count ≡ r.count))
unfolding init_library
init_library-cases i r = elim (Option-cases (entry_at r.slots i)) [
  | inl n ↦ inl (rw (init_library, n) refl)
  | inr (e, t) ↦ elim (Bool-cases e.unloading) [
    | inl u ↦ inl (ground arith)
    | inr u ↦ elim (Bool-cases e.initialized) [
      | inl v ↦ inl (ground arith)
      | inr v ↦ inr (e, t, u, ground arith, ground arith)
    ]
  ]
]

init_library-WellFormed : (i : ℕ) (r : Registry) → WellFormed r → WellFormed (init_library i r).1
init_library-WellFormed i r w = elim (init_library-cases i r) [
  | inl e ↦ subst WellFormed (sym e) w
  | inr (e, t, u, s, c) ↦
      change-WellFormed r _ i (record e { initialized = true }) e w t refl
        (λ f. cc (w.settled i e t f).0) s c
]

closed-IsSettled : (e : Entry) (n : ℕ) → IsSettled (record (closed e) { refs = n })
unfolding closed
closed-IsSettled e n f = (refl, refl, refl, refl)

release-WellFormed :
    (c : Closing) (i : ℕ) (e : Entry) (r : Registry)
    → WellFormed r
    → entry_at r.slots i ≡ some e
    → WellFormed (release c i e r)
unfolding release closed
release-WellFormed c i e r w t = elim (Bool-cases c.busy) [
  | inl b ↦
      rw (release, b)
        (change-WellFormed r _ i (record e { refs = 1 }) e w t refl (w.settled i e t) refl refl)
  | inr b ↦ elim (Bool-cases (e.prepare && not c.prepares)) [
    | inl p ↦
        rw (release, b)
          (rw p (
            change-WellFormed r _ i (record e { refs = 1; unloading = false }) e w t refl
              (λ f. (let (u, v, q, x) = w.settled i e t f in ground arith)) refl refl))
    | inr p ↦ elim (Bool-cases c.destroys) [
      | inr d ↦
          rw (release, b)
            (rw p (
              rw d (
                change-WellFormed r _ i (record (closed e) { refs = 1 }) e w t refl
                  (closed-IsSettled e 1) refl refl)))
      | inl d ↦
          rw (release, b)
            (rw p (
              rw d (
                remove-WellFormed r _ i e w t refl (
                  omega (
                    arith,
                    w.counted,
                    occupied-set-none r.slots i e t,
                    occupied_bound r.slots,
                    w.size,
                  )))))
    ]
  ]
]

free_library-WellFormed :
    (c : Closing) (i : ℕ) (r : Registry) → WellFormed r → WellFormed (free_library c i r)
unfolding free_library
free_library-WellFormed c i r w = elim (Option-cases (entry_at r.slots i)) [
  | inl n ↦ rw (free_library, n) w
  | inr (e, t) ↦ elim (Bool-cases (e.refs == 0)) [
    | inl z ↦ rw (free_library, t) (rw z w)
    | inr z ↦ elim (Bool-cases (ltb 0 (e.refs - 1))) [
      | inl m ↦
          rw (free_library, t)
            (rw z (
              rw m (
                change-WellFormed r _ i (record e { refs = e.refs - 1 }) e w t refl
                  (w.settled i e t) refl refl)))
      | inr m ↦ rw (free_library, t) (rw z (rw m (release-WellFormed c i e r w t)))
    ]
  ]
]

-- One operation on the table, whatever the rest of the system answers.
pub data Step : Registry → Registry → Type 0 where
  load : (host : Host) (path : List ℕ) (r : Registry) → Step r (load_library host path r).1
  clone : (i : ℕ) (r : Registry) → Step r (clone_handle i r).1
  init : (i : ℕ) (r : Registry) → Step r (init_library i r).1
  free : (c : Closing) (i : ℕ) (r : Registry) → Step r (free_library c i r)

pub data Steps (v : Registry) : Registry → Type 0 where
  here : Steps v v
  next : {r s : Registry} → Steps v r → Step r s → Steps v s

-- The table at the start of the program.
abbrev pub no_libraries : Registry
no_libraries = record { slots = replicate slot_limit none; count = 0; trace = [] }

-- In every table that a sequence of loads, clones, initializations and releases leaves, there are the 32 slots, the
-- counter is the number of the slots that are taken, a library that was finalized stays marked, and no two
-- libraries have the same name.
pub Steps-WellFormed : {r s : Registry} → WellFormed r → Steps r s → WellFormed s
Steps-WellFormed w here = w
Steps-WellFormed w (next m (load host path r)) =
    load_library-WellFormed host path r (Steps-WellFormed w m)
Steps-WellFormed w (next m (clone i r)) = clone_handle-WellFormed i r (Steps-WellFormed w m)
Steps-WellFormed w (next m (init i r)) = init_library-WellFormed i r (Steps-WellFormed w m)
Steps-WellFormed w (next m (free c i r)) = free_library-WellFormed c i r (Steps-WellFormed w m)
