-- ===== src/Loader/Registry/Unwind.antt =====
-- loader_find_exidx: the table for unwinding from a code address.
use vita_arc.Base.{
  ℕ, suc, ◌+◌, ◌-◌, ◌*◌, ◌/◌, ◌%◌, ◌^◌, ◌≤◌, ◌≡◌, ◌≢◌, inl, inr, refl, Bool, true, false, not, ◌&&◌,
  ◌||◌, Option, none, some,
}
use vita_arc.Base.{List, [], ◌∷◌, ltb, leb, ◌==◌, if◌then◌else◌, get_elem?, arith, Bool-cases}
use vita_arc.Loader.Elf.{Phdr, Shdr, programs, sections}
use vita_arc.Loader.Registry.Defs.{Entry, entry_at}

-- `__file_backed_range`
unfoldable file_backed_range : List Phdr → ℕ → ℕ → Bool
file_backed_range [] address size = false
file_backed_range (p ∷ ps) address size =
    (p.type == 1 && leb p.vaddr address && leb (address + size) (p.vaddr + p.filesz))
    || file_backed_range ps address size

-- `__exidx_table`: the address of the table and its number of entries, zeros if there is none.
unfoldable exidx_table : Entry → ℕ → ℕ → ℕ × ℕ
unfolding file_backed_range programs
exidx_table e address size =
    if size == 0
      || not (address % 4 == 0)
      || not (size % 8 == 0)
      || not (file_backed_range (programs e.image) address size)
    then (0, 0)
    else ((e.library.base + address) % 2 ^ 32, size / 8)

-- Whether a segment with code holds the address.
unfoldable pub is_code : List Phdr → ℕ → Bool
is_code [] relative = false
is_code (p ∷ ps) relative =
    (p.type == 1 && p.flags % 2 == 1 && leb p.vaddr relative && ltb relative (p.vaddr + p.filesz))
    || is_code ps relative

abbrev arm_exidx : ℕ
arm_exidx = 0x70000001

-- The table that the sections name; the flag is SHF_ALLOC.
unfoldable section_table : Entry → List Shdr → ℕ × ℕ
unfolding exidx_table
section_table e [] = (0, 0)
section_table e (s ∷ ss) =
    if s.type == arm_exidx && s.flags / 2 % 2 == 1
    then exidx_table e s.addr s.size
    else section_table e ss

-- The table that the program headers name, else that of the sections.
unfoldable segment_table : Entry → List Phdr → ℕ × ℕ
unfolding exidx_table section_table sections
segment_table e [] = section_table e (sections e.image)
segment_table e (p ∷ ps) =
    if p.type == arm_exidx
    then (if p.filesz == p.memsz then exidx_table e p.vaddr p.filesz else (0, 0))
    else segment_table e ps

-- loader_find_exidx, on an address without the Thumb bit
unfoldable find_from_slots : ℕ → List (Option Entry) → ℕ × ℕ
unfolding is_code segment_table programs
find_from_slots pc [] = (0, 0)
find_from_slots pc (none ∷ ss) = find_from_slots pc ss
find_from_slots pc (some e ∷ ss) =
    let rest = find_from_slots pc ss in
    if ltb pc e.library.base
    then rest
    else if not (is_code (programs e.image) (pc - e.library.base))
    then rest
    else segment_table e (programs e.image)

unfoldable pub find_exidx : ℕ → List (Option Entry) → ℕ × ℕ
unfolding find_from_slots
find_exidx pc slots = find_from_slots (pc / 2 * 2) slots

-- A table of `size` bytes at an address of the library: whole entries, aligned, inside one loadable segment's
-- bytes of the file.
pub record IsTable (e : Entry) (t : ℕ × ℕ) : Type 0 where
  pub address : ℕ
  pub size : ℕ
  pub starts : t.0 ≡ (e.library.base + address) % 2 ^ 32
  pub entries : 8 * t.1 ≡ size
  pub aligned : address % 4 ≡ 0
  pub backed :
      (k : ℕ) × (p : Phdr) × (get_elem? (programs e.image) k ≡ some p)
      × (p.type ≡ 1)
      × (p.vaddr ≤ address)
      × (address + size ≤ p.vaddr + p.filesz)

file_backed_range-segment :
    (ps : List Phdr) (address size : ℕ)
    → file_backed_range ps address size ≡ true
    → (k : ℕ) × (p : Phdr) × (get_elem? ps k ≡ some p)
      × (p.type ≡ 1)
      × (p.vaddr ≤ address)
      × (address + size ≤ p.vaddr + p.filesz)
unfolding file_backed_range
file_backed_range-segment [] address size h = cc
file_backed_range-segment (p ∷ ps) address size h =
    elim (Bool-cases
      (p.type == 1 && leb p.vaddr address && leb (address + size) (p.vaddr + p.filesz))) [
        | inl e ↦ (0, p, refl, ground arith, ground arith, ground arith)
        | inr e ↦
            let (k, q, at, load, low, high) =
              file_backed_range-segment ps address size (ground arith) in
            (suc k, q, at, load, low, high)
      ]

exidx_table-IsTable :
    (e : Entry) (address size : ℕ)
    → (exidx_table e address size).1 ≢ 0
    → IsTable e (exidx_table e address size)
unfolding exidx_table
exidx_table-IsTable e address size h =
    elim (Bool-cases (
      size == 0
      || not (address % 4 == 0)
      || not (size % 8 == 0)
      || not (file_backed_range (programs e.image) address size))) [
        | inl c ↦ absurd (h (ground arith))
        | inr c ↦
            rw (exidx_table, c)
              (record {
                address = address;
                size = size;
                starts = refl;
                entries = ground arith;
                aligned = ground arith;
                backed = file_backed_range-segment (programs e.image) address size (ground arith);
              })
      ]

section_table-IsTable :
    (e : Entry) (ss : List Shdr) → (section_table e ss).1 ≢ 0 → IsTable e (section_table e ss)
unfolding section_table
section_table-IsTable e [] h = absurd (h refl)
section_table-IsTable e (s ∷ ss) h =
    elim (Bool-cases (s.type == arm_exidx && s.flags / 2 % 2 == 1)) [
      | inl c ↦ rw (section_table, c) (exidx_table-IsTable e s.addr s.size (ground arith))
      | inr c ↦ rw (section_table, c) (section_table-IsTable e ss (ground arith))
    ]

segment_table-IsTable :
    (e : Entry) (ps : List Phdr) → (segment_table e ps).1 ≢ 0 → IsTable e (segment_table e ps)
unfolding segment_table
segment_table-IsTable e [] h = section_table-IsTable e (sections e.image) h
segment_table-IsTable e (p ∷ ps) h = elim (Bool-cases (p.type == arm_exidx)) [
  | inr c ↦ rw (segment_table, c) (segment_table-IsTable e ps (ground arith))
  | inl c ↦ elim (Bool-cases (p.filesz == p.memsz)) [
    | inl d ↦ rw (segment_table, c) (rw d (exidx_table-IsTable e p.vaddr p.filesz (ground arith)))
    | inr d ↦ absurd (h (ground arith))
  ]
]

-- A table that is found belongs to a loaded library with code at the address.
find_from_slots-IsTable :
    (pc : ℕ) (ss : List (Option Entry))
    → (find_from_slots pc ss).1 ≢ 0
    → (i : ℕ) × (e : Entry) × (entry_at ss i ≡ some e)
      × (e.library.base ≤ pc)
      × (is_code (programs e.image) (pc - e.library.base) ≡ true)
      × IsTable e (find_from_slots pc ss)
unfolding find_from_slots entry_at
find_from_slots-IsTable pc [] h = absurd (h refl)
find_from_slots-IsTable pc (none ∷ ss) h =
    let (i, f, at, low, code, t) = find_from_slots-IsTable pc ss h in (suc i, f, at, low, code, t)
find_from_slots-IsTable pc (some e ∷ ss) h = elim (Bool-cases (ltb pc e.library.base)) [
  | inl c ↦
      rw (find_from_slots, c)
        (let (i, f, at, low, code, t) = find_from_slots-IsTable pc ss (ground arith) in
          (suc i, f, at, low, code, t))
  | inr c ↦ elim (Bool-cases (is_code (programs e.image) (pc - e.library.base))) [
    | inr d ↦
        rw (find_from_slots, c)
          (rw d (
            let (i, f, at, low, code, t) = find_from_slots-IsTable pc ss (ground arith) in
            (suc i, f, at, low, code, t)))
    | inl d ↦
        rw (find_from_slots, c)
          (rw d (
            0,
            e,
            refl,
            ground arith,
            d,
            segment_table-IsTable e (programs e.image) (ground arith),
          ))
  ]
]

-- When loader_find_exidx reports entries, they are those of a loaded library that has code at the address;
-- they are aligned, fill the table and lie inside the file's part of one of its loadable segments.
pub find_exidx-IsTable :
    (pc : ℕ) (slots : List (Option Entry))
    → (find_exidx pc slots).1 ≢ 0
    → (i : ℕ) × (e : Entry) × (entry_at slots i ≡ some e)
      × (e.library.base ≤ pc / 2 * 2)
      × (is_code (programs e.image) (pc / 2 * 2 - e.library.base) ≡ true)
      × IsTable e (find_exidx pc slots)
unfolding find_exidx
find_exidx-IsTable pc slots h = find_from_slots-IsTable (pc / 2 * 2) slots h
