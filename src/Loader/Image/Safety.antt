-- ===== src/Loader/Image/Safety.antt =====
-- The relocations of a checked library stay inside its blocks.
use vita_arc.Base.{ℕ, ◌+◌, ◌/◌, ◌%◌, ◌^◌, ◌≡◌, ◌⊎◌, inl, inr, refl, sym, ap, ◌∙◌, Bool, true}
use vita_arc.Base.{List, [], ◌∷◌, leb, All, All-elements, arith, Bool-cases, Option-cases}
use mathlib.Core.Path.{subst}
use vita_arc.Loader.Elf.{Phdr, Shdr, Rel, programs, sections, rel_type, rel_sym}
use vita_arc.Loader.Validation.Defs.{mapped_range, segments_ok}
use vita_arc.Loader.Validation.Sections.{
  View, rels_ok, rel_sections_loop, rel_section_ok, is_rel_section, rels_loop, rel_ok, rel_table,
  names_section, elf_check,
}
use vita_arc.Loader.Validation.Entries.{elf_check-parts}
use vita_arc.Loader.Validation.Segments.{segments_ok-fits}
use vita_arc.Loader.Validation.Checked.{sections_ok-IsChecked}
use vita_arc.Loader.Image.Defs.{Kernel, Library, load_segments}
use vita_arc.Loader.Image.Relocation.{
  relocate, relocate_section, relocate_image, load_sections, relocation, Action, keep, refuse, put,
  apply, place, each, has_relocations, find_sections, nothing_found,
}
use vita_arc.Loader.Image.Writes.{
  in_blocks, within_blocks, IsSafe, IsBounded, load_segments-IsSafe, load_segments-holds,
  load_segments-Keeps, and_intro,
}

pub each-keeps {ℓ κ μ ν} :
    {A : Type ℓ} {S : Type κ} (f : A → S → Bool × S) (P : S → Type μ) (Q : A → Type ν)
    → ((a : A) (s : S) → Q a → P s → P (f a s).1)
    → (as' : List A) (s : S) → All Q as'
    → P s
    → P (each f as' s).1
unfolding each
each-keeps f P Q k [] s q p = p
each-keeps f P Q k (a ∷ as') s q p = elim (Bool-cases (f a s).0) [
  | inl e ↦ rw (each, e) (each-keeps f P Q k as' (f a s).1 q.1 (k a s q.0 p))
  | inr e ↦ rw (each, e) (k a s q.0 p)
]

-- The library while its relocations run: what was mapped stays, and every write was in a block.
abbrev pub IsPlaced : ℕ → List (ℕ × ℕ) → Library → Type 0
IsPlaced base blocks l = (l.base ≡ base) × (l.blocks ≡ blocks) × IsSafe l

-- A relocation that writes nothing or writes into a block.
abbrev pub IsMapped : ℕ → List (ℕ × ℕ) → Rel → Type 0
IsMapped base blocks r = (rel_type r ≡ 0) ⊎ (in_blocks ((base + r.offset) % 2 ^ 32) 4 blocks ≡ true)

pub apply-IsPlaced :
    (kernel : Kernel) (at base : ℕ) (blocks : List (ℕ × ℕ)) (a : Action) (l : Library)
    → (a ≡ keep) ⊎ (in_blocks at 4 blocks ≡ true)
    → IsPlaced base blocks l
    → IsPlaced base blocks (apply kernel at a l).1
unfolding apply within_blocks
apply-IsPlaced kernel at base blocks keep l m p = p
apply-IsPlaced kernel at base blocks refuse l m p = p
apply-IsPlaced kernel at base blocks (put v) l m (b, e, s) =
    elim (Bool-cases (kernel.copies l.writes at)) [
      | inr c ↦ rw (apply, c) (b, e, s)
      | inl c ↦
          rw (apply, c)
            (
              b,
              e,
              and_intro _ _ (ap (λ bs. in_blocks at 4 bs) e ∙ elim m [ inl k ↦ cc | inr i ↦ i ]) s,
            )
    ]

relocation-none : (word symbol base type : ℕ) → type ≡ 0 → relocation type word symbol base ≡ keep
unfolding relocation
relocation-none word symbol base type e = ground arith

relocate-IsPlaced :
    (kernel : Kernel) (image : List ℕ) (symbols : Shdr) (base : ℕ) (blocks : List (ℕ × ℕ)) (r : Rel)
    (l : Library)
    → IsMapped base blocks r
    → IsPlaced base blocks l
    → IsPlaced base blocks (relocate kernel image symbols r l).1
unfolding relocate
relocate-IsPlaced kernel image symbols base blocks r l m p =
    elim (Bool-cases (leb (symbols.size / 16) (rel_sym r))) [
      | inl e ↦ rw (relocate, e) p
      | inr e ↦
          rw (relocate, e)
            (apply-IsPlaced kernel (place r l) base blocks (relocation (rel_type r) _ _ l.base) l
              (elim m [
                | inl z ↦ inl (relocation-none _ _ l.base (rel_type r) z)
                | inr i ↦ inr (ap (λ b. in_blocks ((b + r.offset) % 2 ^ 32) 4 blocks) p.0 ∙ i)
              ])
              p)
    ]

relocate_section-IsPlaced :
    (kernel : Kernel) (image : List ℕ) (names symbols : Shdr) (base : ℕ) (blocks : List (ℕ × ℕ))
    (s : Shdr) (l : Library)
    → (has_relocations image names s ≡ true → All (IsMapped base blocks) (rel_table image s))
    → IsPlaced base blocks l
    → IsPlaced base blocks (relocate_section kernel image names symbols s l).1
unfolding relocate_section
relocate_section-IsPlaced kernel image names symbols base blocks s l m p =
    elim (Bool-cases (has_relocations image names s)) [
      | inr e ↦ rw (relocate_section, e) p
      | inl e ↦
          rw (relocate_section, e)
            (each-keeps (relocate kernel image symbols) (IsPlaced base blocks)
              (IsMapped base blocks) (λ r l. relocate-IsPlaced kernel image symbols base blocks r l)
              (rel_table image s) l (m e) p)
    ]

relocate_image-IsPlaced :
    (kernel : Kernel) (image : List ℕ) (base : ℕ) (blocks : List (ℕ × ℕ)) (l : Library)
    → All
        (λ s.
          has_relocations image (names_section image) s ≡ true
          → All (IsMapped base blocks) (rel_table image s))
        (sections image)
    → IsPlaced base blocks l
    → IsPlaced base blocks (relocate_image kernel image l).1
unfolding relocate_image
relocate_image-IsPlaced kernel image base blocks l m p =
    let names = names_section image in
    let found = find_sections image names (sections image) nothing_found in
    elim (Option-cases found.symbols) [
      | inl e ↦ rw (relocate_image, e) p
      | inr (symbols, e) ↦ elim (Option-cases found.strings) [
        | inl f ↦ rw (relocate_image, e) (rw f p)
        | inr (strings, f) ↦
            rw (relocate_image, e)
              (rw f (
                each-keeps (relocate_section kernel image names symbols) (IsPlaced base blocks)
                  (λ s.
                    has_relocations image names s ≡ true
                    → All (IsMapped base blocks) (rel_table image s))
                  (λ s l. relocate_section-IsPlaced kernel image names symbols base blocks s l)
                  (sections image) l m p))
      ]
    ]

module _ (ps : List Phdr) (base : ℕ) (blocks : List (ℕ × ℕ))
    (holds : (at : ℕ)
      → mapped_range ps at 4 ≡ true
      → in_blocks ((base + at) % 2 ^ 32) 4 blocks ≡ true) where
  rels_loop-IsMapped :
      (v : View) (rs : List Rel) → rels_loop ps v rs ≡ true → All (IsMapped base blocks) rs
  unfolding rels_loop rel_ok
  rels_loop-IsMapped v [] h = tt
  rels_loop-IsMapped v (r ∷ rs) h =
      (ground (arith, holds r.offset), rels_loop-IsMapped v rs (ground arith))

  rel_sections_loop-IsMapped :
      (image : List ℕ) (v : View) (ss : List Shdr)
      → rel_sections_loop image ps v ss ≡ true
      → All
          (λ s.
            has_relocations image v.names s ≡ true → All (IsMapped base blocks) (rel_table image s))
          ss
  unfolding rel_sections_loop rel_section_ok is_rel_section has_relocations
  rel_sections_loop-IsMapped image v [] h = tt
  rel_sections_loop-IsMapped image v (s ∷ ss) h = (
    λ c. rels_loop-IsMapped v (rel_table image s) (ground arith),
    rel_sections_loop-IsMapped image v ss (ground arith),
  )

bounded : (file_size : ℕ) (ps : List Phdr) → segments_ok file_size ps ≡ true → All IsBounded ps
bounded file_size ps h =
    All-elements IsBounded ps (λ i p e t. (segments_ok-fits file_size ps i p h e t).2)

-- Each relocation of the image writes nothing or into one of the blocks.
abbrev pub IsRelocatable : ℕ → List (ℕ × ℕ) → List ℕ → Type 0
IsRelocatable base blocks image =
    All
      (λ s.
        has_relocations image (names_section image) s ≡ true
        → All (IsMapped base blocks) (rel_table image s))
      (sections image)

-- What the relocations of a checked library stand on after its segments were mapped: `l` is that library.
segments_mapped :
    (kernel : Kernel) (image : List ℕ) (file_size : ℕ) (l : Library)
    → elf_check file_size image ≡ true
    → (load_segments kernel image 0 (programs image) l).0 ≡ true
    → let m = (load_segments kernel image 0 (programs image) l).1 in
      IsRelocatable m.base m.blocks image
unfolding rels_ok
segments_mapped kernel image file_size l h f =
    let (header, segments, v, e, symbols, rels) = elf_check-parts file_size image h in
    let ps = programs image in
    let m = (load_segments kernel image 0 ps l).1 in
    let holds = λ (at : ℕ) (c : mapped_range ps at 4 ≡ true).
      ap (λ b. in_blocks ((b + at) % 2 ^ 32) 4 m.blocks)
        (load_segments-Keeps kernel image 0 ps l).base
      ∙ load_segments-holds kernel image 0 ps l at 4 (bounded file_size ps segments) f (omega arith)
          c in
    let mapped =
      rel_sections_loop-IsMapped ps m.base m.blocks holds image v (sections image) rels in
    subst
      (λ n.
        All
          (λ s.
            has_relocations image n s ≡ true → All (IsMapped m.base m.blocks) (rel_table image s))
          (sections image))
      (sections_ok-IsChecked file_size image v e).names_are mapped

-- Whether all writes are in blocks after the segments.
segments-IsSafe :
    (kernel : Kernel) (image : List ℕ) (file_size : ℕ) (l : Library)
    → elf_check file_size image ≡ true
    → l.writes ≡ []
    → IsSafe (load_segments kernel image 0 (programs image) l).1
unfolding within_blocks
segments-IsSafe kernel image file_size l h w =
    let segments = (elf_check-parts file_size image h).1 in
    load_segments-IsSafe kernel image 0 (programs image) l
      (bounded file_size (programs image) segments) (ap (λ ws. within_blocks l.blocks ws) w)

-- In a library that passed the validation, each write that loader_load_sections makes lies inside a block that
-- it mapped, whatever the kernel answers and wherever it stops.
pub load_sections-IsSafe :
    (kernel : Kernel) (image : List ℕ) (file_size : ℕ) (l : Library)
    → elf_check file_size image ≡ true
    → l.writes ≡ []
    → IsSafe (load_sections kernel image l).1
unfolding load_sections
load_sections-IsSafe kernel image file_size l h w =
    let safe = segments-IsSafe kernel image file_size l h w in
    let m = (load_segments kernel image 0 (programs image) l).1 in
    elim (Bool-cases (load_segments kernel image 0 (programs image) l).0) [
      | inr f ↦ rw (load_sections, f) safe
      | inl f ↦
          rw (load_sections, f)
            (relocate_image-IsPlaced kernel image m.base m.blocks m
              (segments_mapped kernel image file_size l h f) (refl, refl, safe)).2
    ]

-- After it succeeded, the relocations that are left write into blocks too.
pub load_sections-IsRelocatable :
    (kernel : Kernel) (image : List ℕ) (file_size : ℕ) (l : Library)
    → elf_check file_size image ≡ true
    → l.writes ≡ []
    → (load_sections kernel image l).0 ≡ true
    → let m = (load_sections kernel image l).1 in IsRelocatable m.base m.blocks image
unfolding load_sections
load_sections-IsRelocatable kernel image file_size l h w r =
    let m = (load_segments kernel image 0 (programs image) l).1 in
    elim (Bool-cases (load_segments kernel image 0 (programs image) l).0) [
      | inr f ↦ cc
      | inl f ↦
          let mapped = segments_mapped kernel image file_size l h f in
          let kept =
            relocate_image-IsPlaced kernel image m.base m.blocks m mapped
              (refl, refl, segments-IsSafe kernel image file_size l h w) in
          rw (load_sections, f)
            (subst (λ b. IsRelocatable b (relocate_image kernel image m).1.blocks image)
              (sym kept.0) (subst (λ bs. IsRelocatable m.base bs image) (sym kept.1) mapped))
    ]
