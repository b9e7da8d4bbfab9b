-- ===== src/Loader/Image/Bound.antt =====
-- Where loader_bind writes in a library that was checked and relocated.
use vita_arc.Base.{ℕ, ◌+◌, ◌%◌, ◌^◌, ◌≡◌, ◌≢◌, ◌⊎◌, inl, inr, refl, sym, Bool, true}
use vita_arc.Base.{List, [], All, arith, Bool-cases}
use mathlib.Core.Path.{subst}
use vita_arc.Loader.Elf.{Shdr, Rel, sections, rel_type}
use vita_arc.Loader.Validation.Sections.{names_section, rel_table, elf_check}
use vita_arc.Loader.Image.Defs.{Kernel, Library}
use vita_arc.Loader.Image.Relocation.{put, apply, place, read_word, has_relocations, load_sections}
use vita_arc.Loader.Image.Writes.{in_blocks, IsSafe}
use vita_arc.Loader.Image.Safety.{
  IsPlaced, IsMapped, IsRelocatable, apply-IsPlaced, each-keeps, load_sections-IsSafe,
  load_sections-IsRelocatable,
}
use vita_arc.Loader.Image.Imports.{
  Linkage, Binding, is_skipped, target_of, report, patch, bind_one, bind_section, bind_loop, bind,
  nothing_bound,
}

bind-library :
    (allocated : Bool) (kernel : Kernel) (image : List ℕ) (k : Linkage) (l : Library)
    → ((bind allocated kernel image k l).1 ≡ l)
      ⊎ ((bind allocated kernel image k l).1 ≡ (bind_loop kernel image k l).1.library)
unfolding bind
bind-library allocated kernel image k l = ground arith

module _ (kernel : Kernel) (image : List ℕ) (k : Linkage) (base : ℕ) (blocks : List (ℕ × ℕ)) where
  patch-IsPlaced :
      (r : Rel) (v : ℕ) (b : Binding)
      → in_blocks ((base + r.offset) % 2 ^ 32) 4 blocks ≡ true
      → IsPlaced base blocks b.library
      → IsPlaced base blocks (patch kernel r v b).1.library
  unfolding patch
  patch-IsPlaced r v b h p =
      let there = subst (λ x. in_blocks ((x + r.offset) % 2 ^ 32) 4 blocks ≡ true) (sym p.0) h in
      let done =
        apply-IsPlaced kernel (place r b.library) base blocks (put v) b.library (inr there) p in
      elim (Bool-cases (apply kernel (place r b.library) (put v) b.library).0) [
        | inl e ↦ rw (patch, e) done
        | inr e ↦ rw (patch, e) done
      ]

  report-library : (i : ℕ) (b : Binding) → (report i b).library ≡ b.library
  unfolding report
  report-library i b = ground arith

  abbrev sum_value : Rel → Binding → ℕ
  sum_value r b = (read_word b.library.memory (place r b.library) + target_of image k r) % 2 ^ 32

  -- A round keeps the library or patches a relocation of a type other than R_ARM_NONE.
  bind_one-library :
      (r : Rel) (b : Binding)
      → ((bind_one kernel image k r b).1.library ≡ b.library)
        ⊎ ((rel_type r ≢ 0)
            × (((bind_one kernel image k r b).1.library
                  ≡ (patch kernel r (sum_value r b) b).1.library)
                ⊎ ((bind_one kernel image k r b).1.library
                    ≡ (patch kernel r (target_of image k r) b).1.library)))
  unfolding bind_one is_skipped
  bind_one-library r b = ground (arith, λ (i : ℕ). report-library i b)

  bind_one-IsPlaced :
      (r : Rel) (b : Binding)
      → IsMapped base blocks r
      → IsPlaced base blocks b.library
      → IsPlaced base blocks (bind_one kernel image k r b).1.library
  bind_one-IsPlaced r b m p = elim (bind_one-library r b) [
    | inl e ↦ subst (IsPlaced base blocks) (sym e) p
    | inr (t, e) ↦ elim m [
      | inl z ↦ absurd (t z)
      | inr i ↦ elim e [
        | inl f ↦ subst (IsPlaced base blocks) (sym f) (patch-IsPlaced r (sum_value r b) b i p)
        | inr f ↦
            subst (IsPlaced base blocks) (sym f) (patch-IsPlaced r (target_of image k r) b i p)
      ]
    ]
  ]

  bind_section-IsPlaced :
      (s : Shdr) (b : Binding)
      → (has_relocations image (names_section image) s ≡ true
          → All (IsMapped base blocks) (rel_table image s))
      → IsPlaced base blocks b.library
      → IsPlaced base blocks (bind_section kernel image k s b).1.library
  unfolding bind_section
  bind_section-IsPlaced s b m p =
      elim (Bool-cases (has_relocations image (names_section image) s)) [
        | inr e ↦ rw (bind_section, e) p
        | inl e ↦
            rw (bind_section, e)
              (each-keeps (bind_one kernel image k) (λ b. IsPlaced base blocks b.library)
                (IsMapped base blocks) (λ r b m p. bind_one-IsPlaced r b m p) (rel_table image s) b
                (m e) p)
      ]

  bind-IsPlaced :
      (allocated : Bool) (l : Library)
      → IsRelocatable base blocks image
      → IsPlaced base blocks l
      → IsPlaced base blocks (bind allocated kernel image k l).1
  unfolding bind bind_loop
  bind-IsPlaced allocated l m p =
      let done =
        each-keeps (bind_section kernel image k) (λ b. IsPlaced base blocks b.library)
          (λ s.
            has_relocations image (names_section image) s ≡ true
            → All (IsMapped base blocks) (rel_table image s))
          (λ s b m p. bind_section-IsPlaced s b m p) (sections image) (nothing_bound l) m p in
      elim (bind-library allocated kernel image k l) [
        | inl e ↦ subst (IsPlaced base blocks) (sym e) p
        | inr e ↦ subst (IsPlaced base blocks) (sym e) done
      ]

-- loader_bind after loader_load_sections, on a library that passed the validation: each write of the two
-- lies inside a block that was mapped, whatever the imports' addresses are.
pub bind-IsSafe :
    (allocated : Bool) (kernel : Kernel) (image : List ℕ) (file_size : ℕ) (k : Linkage)
    (l : Library)
    → elf_check file_size image ≡ true
    → l.writes ≡ []
    → (load_sections kernel image l).0 ≡ true
    → IsSafe (bind allocated kernel image k (load_sections kernel image l).1).1
bind-IsSafe allocated kernel image file_size k l h w r =
    let m = (load_sections kernel image l).1 in
    (bind-IsPlaced kernel image k m.base m.blocks allocated m
      (load_sections-IsRelocatable kernel image file_size l h w r)
      (refl, refl, load_sections-IsSafe kernel image file_size l h w)).2
