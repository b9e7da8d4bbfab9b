-- ===== src/Loader/Registry/Outcomes.antt =====
-- The operations on the table: they keep it well-formed, and what each leaves on every path.
use vita_arc.Base.{
  ℕ, ◌+◌, ◌%◌, ◌^◌, ◌<◌, ◌≡◌, ◌⊎◌, inl, inr, refl, sym, ap, ◌∙◌, true, false, not, ◌||◌, Option,
  none, some,
}
use vita_arc.Base.{
  List, [], ◌∷◌, ltb, leb, ◌==◌, set, length, length-set, arith, Bool-cases, Option-cases,
}
use mathlib.Core.Path.{subst}
use vita_arc.Base.Text.{bytes_eq}
use vita_arc.Loader.Validation.Defs.{max_span}
use vita_arc.Loader.Validation.Sections.{elf_check}
use vita_arc.Loader.Registry.Defs.{
  Entry, Registry, slot_limit, entry_at, put_entry, find_library, find_empty_slot, find_from,
  empty_from, clone_handle,
}
use vita_arc.Loader.Registry.Life.{
  Host, file_name, window, fresh, linked, bind_entry, install, enter_library, load_file,
  load_library,
}
use vita_arc.Loader.Registry.Slots.{
  occupied, entry_at-set, occupied-set_new, set_back, set_twice, empty_from-entry_at,
  find_from-none, find_from-set_new, find_from-set_same,
}
use vita_arc.Loader.Registry.Invariant.{WellFormed, change-WellFormed, put-WellFormed}

clone_handle-cases :
    (i : ℕ) (r : Registry)
    → (clone_handle i r ≡ (none, r))
      ⊎ ((e : Entry) × (entry_at r.slots i ≡ some e)
          × (e.unloading ≡ false)
          × (clone_handle i r
              ≡ (some i, put_entry i (record e { refs = (e.refs + 1) % 2 ^ 32 }) r)))
unfolding clone_handle
clone_handle-cases i r = elim (Option-cases (entry_at r.slots i)) [
  | inl n ↦ inl (rw (clone_handle, n) refl)
  | inr (e, t) ↦ elim (Bool-cases e.unloading) [
    | inl u ↦ inl (rw (clone_handle, t) (rw u refl))
    | inr u ↦ inr (e, t, u, rw (clone_handle, t) (rw u refl))
  ]
]

pub clone_handle-WellFormed :
    (i : ℕ) (r : Registry) → WellFormed r → WellFormed (clone_handle i r).1
clone_handle-WellFormed i r w = elim (clone_handle-cases i r) [
  | inl e ↦ subst (λ x. WellFormed x.1) (sym e) w
  | inr (e, t, u, h) ↦
      subst (λ x. WellFormed x.1) (sym h)
        (change-WellFormed r _ i (record e { refs = (e.refs + 1) % 2 ^ 32 }) e w t refl
          (w.settled i e t) refl refl)
]

-- The steps of the installation change neither the name nor the marks of the entry.
install-keeps :
    (host : Host) (slot : ℕ) (r : Registry) (e : Entry)
    → let d = (install host slot r e).1 in
      (d.name ≡ e.name)
      × (d.refs ≡ e.refs)
      × (d.unloading ≡ e.unloading)
      × (d.finalized ≡ e.finalized)
unfolding install linked bind_entry
install-keeps host slot r e = ground arith

clone_handle-fresh :
    (i : ℕ) (r : Registry) (e : Entry)
    → entry_at r.slots i ≡ some e
    → e.unloading ≡ false
    → clone_handle i r ≡ (some i, put_entry i (record e { refs = (e.refs + 1) % 2 ^ 32 }) r)
unfolding clone_handle
clone_handle-fresh i r e t u = rw (clone_handle, t) (rw u refl)

-- The library that a successful entry leaves in the slot.
abbrev IsEntered : Entry → Entry → Type 0
IsEntered e d = (d.name ≡ e.name) × (d.refs ≡ 1) × (d.unloading ≡ false) × (d.finalized ≡ false)

abbrev Restored : Registry → Option ℕ × Registry → Type 0
Restored r x = (x.0 ≡ none) × (x.1.slots ≡ r.slots) × (x.1.count ≡ r.count)

abbrev Entered : ℕ → Entry → Registry → Option ℕ × Registry → Type 0
Entered slot e r x =
    (x.0 ≡ some slot)
    × ((d : Entry) × (x.1.slots ≡ set r.slots slot (some d)) × IsEntered e d)
    × (x.1.count ≡ r.count + 1)

enter_library-cases :
    (host : Host) (slot : ℕ) (e : Entry) (r : Registry)
    → entry_at r.slots slot ≡ none
    → slot < length r.slots
    → r.count < slot_limit
    → IsEntered (record e { refs = 1 }) (record e { refs = 1 })
    → e.refs ≡ 0
    → Restored r (enter_library host slot e r) ⊎ Entered slot e r (enter_library host slot e r)
unfolding enter_library
enter_library-cases host slot e r n at low (same, one, idle, whole) z =
    let entered = put_entry slot e (record r { count = (r.count + 1) % 2 ^ 32 }) in
    let d = (install host slot entered e).1 in
    let (name, refs, unloading, finalized) = install-keeps host slot entered e in
    let third = put_entry slot d entered in
    let there =
      entry_at-set entered.slots slot slot (some d)
        (omega (arith, length-set r.slots slot (some e))) in
    let cloned = clone_handle-fresh slot third d (ground (arith, there)) (unloading ∙ idle) in
    elim (Bool-cases (install host slot entered e).0) [
      | inr f ↦ rw (enter_library, f) (inl (refl, set_back r.slots slot (some e) n at, omega arith))
      | inl f ↦
          rw (enter_library, f)
            (subst (λ x. Restored r x ⊎ Entered slot e r x) (sym cloned)
              (inr (
                refl,
                (
                  record d { refs = (d.refs + 1) % 2 ^ 32 },
                  set_twice (set r.slots slot (some e)) slot _ _ ∙ set_twice r.slots slot _ _,
                  (name, ground arith, unloading ∙ idle, finalized ∙ whole),
                ),
                omega arith,
              )))
    ]

find_empty_slot-free :
    (r : Registry) (slot : ℕ)
    → find_empty_slot r ≡ some slot
    → (entry_at r.slots slot ≡ none) × (slot < length r.slots) × (r.count < slot_limit)
unfolding find_empty_slot
find_empty_slot-free r slot h = elim (Bool-cases (leb slot_limit r.count)) [
  | inl e ↦ cc
  | inr e ↦
      let found : empty_from 0 r.slots ≡ some slot = ground arith in
      let (n, at, low, free) = empty_from-entry_at 0 slot r.slots found in
      let same : slot ≡ n = omega (arith, at) in
      (ap (entry_at r.slots) same ∙ free, omega (arith, same), ground arith)
]

-- What the loading of a file leaves: the table as it was, or the library in a slot that was free.
load_file-cases :
    (host : Host) (name path : List ℕ) (r : Registry)
    → Restored r (load_file host name path r)
      ⊎ ((slot : ℕ) × (e : Entry) × (e.name ≡ name)
          × (entry_at r.slots slot ≡ none)
          × (slot < length r.slots)
          × (elf_check host.size host.bytes ≡ true)
          × Entered slot e r (load_file host name path r))
unfolding load_file fresh
load_file-cases host name path r = elim (Bool-cases (host.size == 0 || ltb max_span host.size)) [
  | inl e ↦ rw (load_file, e) (inl (refl, refl, refl))
  | inr e ↦ elim (Bool-cases (not host.allocates || not host.reads)) [
    | inl f ↦ rw (load_file, e) (rw f (inl (refl, refl, refl)))
    | inr f ↦ elim (Bool-cases (elf_check host.size host.bytes)) [
      | inr g ↦ rw (load_file, e) (rw f (rw g (inl (refl, refl, refl))))
      | inl g ↦ elim (Option-cases (window host)) [
        | inl w ↦ rw (load_file, e) (rw f (rw g (rw w (inl (refl, refl, refl)))))
        | inr (base, w) ↦ elim (Option-cases (find_empty_slot r)) [
          | inl s ↦ rw (load_file, e) (rw f (rw g (rw w (rw s (inl (refl, refl, refl))))))
          | inr (slot, s) ↦
              rw (load_file, e)
                (rw f (
                  rw g (
                    rw w (
                      rw s (
                        let (none_there, low, room) = find_empty_slot-free r slot s in
                        let entry = fresh name path host.bytes base in
                        elim (enter_library-cases host slot entry r none_there low room
                          (refl, refl, refl, refl) refl) [
                            | inl x ↦ inl x
                            | inr x ↦ inr (slot, entry, refl, none_there, low, refl, x)
                          ])))))
        ]
      ]
    ]
  ]
]

same-WellFormed :
    (r m : Registry) → WellFormed r → m.slots ≡ r.slots → m.count ≡ r.count → WellFormed m
same-WellFormed r m w s c = record {
  size = ap length s ∙ w.size;
  counted = c ∙ w.counted ∙ sym (ap occupied s);
  settled = λ i e t. w.settled i e (ap (λ ss. entry_at ss i) (sym s) ∙ t);
  distinct = λ i j e f t u.
      w.distinct i j e f (ap (λ ss. entry_at ss i) (sym s) ∙ t)
        (ap (λ ss. entry_at ss j) (sym s) ∙ u);
}

bytes_eq_comm : (a b : List ℕ) → bytes_eq a b ≡ bytes_eq b a
unfolding bytes_eq
bytes_eq_comm [] [] = refl
bytes_eq_comm [] (b ∷ bs) = refl
bytes_eq_comm (a ∷ as') [] = refl
bytes_eq_comm (a ∷ as') (b ∷ bs) = ground (arith, bytes_eq_comm as' bs)

Entered-WellFormed :
    (r : Registry) (x : Option ℕ × Registry) (slot : ℕ) (e : Entry)
    → WellFormed r
    → find_library e.name r ≡ none
    → entry_at r.slots slot ≡ none
    → slot < length r.slots
    → Entered slot e r x
    → WellFormed x.1
unfolding find_library
Entered-WellFormed r x slot e w new free low (at, (d, same, (name, refs, idle, whole)), count) =
    put-WellFormed r w slot d low
      (λ j f n t.
        (let off = find_from-none e.name 0 j r.slots f new t in
          (
            bytes_eq_comm d.name f.name ∙ ap (bytes_eq f.name) name ∙ off,
            ap (bytes_eq f.name) name ∙ off,
          )))
      x.1 (λ f. cc) same
      (count ∙ omega (arith, w.counted, occupied-set_new r.slots slot d low free, ap occupied same))

-- What a call of loader_load_library with a name that is accepted does.
load_library-cases :
    (host : Host) (path name : List ℕ) (r : Registry)
    → file_name path ≡ some name
    → (load_library host path r ≡ (none, r))
      ⊎ ((i : ℕ) × (find_library name r ≡ some i) × (load_library host path r ≡ clone_handle i r))
      ⊎ ((find_library name r ≡ none) × (load_library host path r ≡ load_file host name path r))
unfolding load_library
load_library-cases host path name r n = elim (Bool-cases host.exists) [
  | inr e ↦ rw (load_library, e) (inl refl)
  | inl e ↦ elim (Bool-cases (leb 64 (length name) || leb 128 (length path))) [
    | inl f ↦ rw (load_library, e) (rw n (rw f (inl refl)))
    | inr f ↦ elim (Option-cases (find_library name r)) [
      | inl g ↦ rw (load_library, e) (rw n (rw f (rw g (inr (inr (refl, refl))))))
      | inr (i, g) ↦ rw (load_library, e) (rw n (rw f (rw g (inr (inl (i, refl, refl))))))
    ]
  ]
]

load_file-WellFormed :
    (host : Host) (name path : List ℕ) (r : Registry)
    → WellFormed r
    → find_library name r ≡ none
    → WellFormed (load_file host name path r).1
load_file-WellFormed host name path r w g = elim (load_file-cases host name path r) [
  | inl (x, s, c) ↦ same-WellFormed r _ w s c
  | inr (slot, e, m, free, low, ok, x) ↦
      Entered-WellFormed r _ slot e w (ap (λ n. find_library n r) m ∙ g) free low x
]

pub load_library-WellFormed :
    (host : Host) (path : List ℕ) (r : Registry)
    → WellFormed r
    → WellFormed (load_library host path r).1
unfolding load_library
load_library-WellFormed host path r w = elim (Option-cases (file_name path)) [
  | inl n ↦ elim (Bool-cases host.exists) [
    | inl e ↦ rw (load_library, e) (rw n w)
    | inr e ↦ rw (load_library, e) w
  ]
  | inr (name, n) ↦ elim (load_library-cases host path name r n) [
    | inl e ↦ subst (λ x. WellFormed x.1) (sym e) w
    | inr (inl (i, g, e)) ↦ subst (λ x. WellFormed x.1) (sym e) (clone_handle-WellFormed i r w)
    | inr (inr (g, e)) ↦
        subst (λ x. WellFormed x.1) (sym e) (load_file-WellFormed host name path r w g)
  ]
]

-- A call that fails left the table, a call that succeeds has a handle that the search for the name finds.
abbrev IsOutcome : Host → List ℕ → Registry → Option ℕ × Registry → Type 0
IsOutcome host name r x =
    Restored r x
    ⊎ ((i : ℕ) × (x.0 ≡ some i)
        × (find_library name x.1 ≡ some i)
        × ((find_library name r ≡ some i) ⊎ (elf_check host.size host.bytes ≡ true)))

clone-IsOutcome :
    (host : Host) (name : List ℕ) (i : ℕ) (r : Registry)
    → find_library name r ≡ some i
    → IsOutcome host name r (clone_handle i r)
unfolding find_library
clone-IsOutcome host name i r g = elim (clone_handle-cases i r) [
  | inl e ↦ subst (IsOutcome host name r) (sym e) (inl (refl, refl, refl))
  | inr (d, t, u, e) ↦
      subst (IsOutcome host name r) (sym e)
        (inr (i, refl, find_from-set_same name 0 i r.slots _ d t refl ∙ g, inl g))
]

load_file-IsOutcome :
    (host : Host) (name path : List ℕ) (r : Registry)
    → find_library name r ≡ none
    → IsOutcome host name r (load_file host name path r)
unfolding find_library
load_file-IsOutcome host name path r g = elim (load_file-cases host name path r) [
  | inl x ↦ inl x
  | inr (slot, e, m, free, low, ok, (at, (d, same, (n, refs, idle, whole)), count)) ↦ inr (
    slot,
    at,
    ap (find_from name 0) same
        ∙ find_from-set_new name 0 slot r.slots d g low (n ∙ m)
        ∙ ap some (omega arith),
    inr ok,
  )
]

-- loader_load_library, with a path that has a file name: when it fails, the slots and the counter are as before;
-- when it returns a handle, the search for the name finds this handle, and the handle was there before or the
-- file passed the validation.
pub load_outcome :
    (host : Host) (path name : List ℕ) (r : Registry)
    → file_name path ≡ some name
    → let x = load_library host path r in
      ((x.0 ≡ none) × (x.1.slots ≡ r.slots) × (x.1.count ≡ r.count))
      ⊎ ((i : ℕ) × (x.0 ≡ some i)
          × (find_library name x.1 ≡ some i)
          × ((find_library name r ≡ some i) ⊎ (elf_check host.size host.bytes ≡ true)))
load_outcome host path name r n = elim (load_library-cases host path name r n) [
  | inl e ↦ subst (IsOutcome host name r) (sym e) (inl (refl, refl, refl))
  | inr (inl (i, g, e)) ↦ subst (IsOutcome host name r) (sym e) (clone-IsOutcome host name i r g)
  | inr (inr (g, e)) ↦
      subst (IsOutcome host name r) (sym e) (load_file-IsOutcome host name path r g)
]
