-- ===== src/Loader/Image/Binding.antt =====
-- What a bound library has: every import that it requires, and no byte outside its blocks.
use vita_arc.Base.{
  ℕ, zero, suc, ◌+◌, ◌/◌, ◌^◌, ◌≤◌, ◌<◌, ◌≡◌, ◌⊎◌, inl, inr, refl, sym, ap, ◌∙◌, ◌≢◌, some,
  get_elem?, All-at, Bool, true, false, not, ◌&&◌, ◌||◌,
}
use vita_arc.Base.{List, [], ◌∷◌, ◌==◌, if◌then◌else◌, All, All-map, arith, Bool-cases}
use mathlib.Core.Path.{subst}
use vita_arc.Loader.Elf.{Shdr, Rel, sections, rel_sym, rel_type}
use vita_arc.Loader.Validation.Sections.{names_section, rel_table}
use vita_arc.Loader.Image.Defs.{Kernel, Library}
use vita_arc.Loader.Image.Relocation.{each, has_relocations}
use vita_arc.Loader.Image.Safety.{each-keeps}
use vita_arc.Loader.Image.Imports.{
  Linkage, Binding, import_symbol, target_of, is_skipped, report, patch, bind_one, bind_section,
  bind_loop, bind, nothing_bound,
}

-- How many numbers below a bound pass a test.
unfoldable count : (ℕ → Bool) → ℕ → ℕ
count f zero = 0
count f (suc n) = (if f n then 1 else 0) + count f n

count_bound : (f : ℕ → Bool) (n : ℕ) → count f n ≤ n
unfolding count
count_bound f zero = omega arith
count_bound f (suc n) = ground (arith, count_bound f n)

count_above : (f : ℕ → Bool) (i n : ℕ) → n ≤ i → count (λ j. j == i || f j) n ≡ count f n
unfolding count
count_above f i zero h = refl
count_above f i (suc n) h = ground (arith, count_above f i n)

count_new :
    (f : ℕ → Bool) (i n : ℕ) → i < n → f i ≡ false → count (λ j. j == i || f j) n ≡ suc (count f n)
unfolding count
count_new f i zero h e = elim h [ ]
count_new f i (suc n) h e = ground (arith, count_new f i n, count_above f i n)

count_none : (f : ℕ → Bool) (n i : ℕ) → count f n ≡ 0 → i < n → f i ≡ false
unfolding count
count_none f zero i e h = elim h [ ]
count_none f (suc n) i e h = ground (arith, count_none f n i)

-- The counter of loader_bind is exact.
abbrev IsCounted : ℕ → Binding → Type 0
IsCounted n b = b.unresolved ≡ count b.reported n

IsCounted-first : (n : ℕ) (l : Library) → IsCounted n (nothing_bound l)
unfolding count
IsCounted-first zero l = refl
IsCounted-first (suc n) l = omega (arith, IsCounted-first n l)

-- The relocations that loader_bind cannot satisfy: a required symbol without an address, or a type that it
-- does not know for a symbol that has one.
unfoldable pub is_refused : List ℕ → Linkage → Rel → Bool
unfolding is_skipped target_of import_symbol
is_refused image k r =
    not (is_skipped image k r)
    && (if target_of image k r == 0
        then not ((import_symbol image k r).info / 16 == 2)
        else not (rel_type r == 2 || rel_type r == 21 || rel_type r == 22))

report-IsCounted :
    (n i : ℕ) (b : Binding) → n < 2 ^ 32 → i < n → IsCounted n b → IsCounted n (report i b)
unfolding report
report-IsCounted n i b w h c = elim (Bool-cases (b.reported i)) [
  | inl e ↦ rw (report, e) c
  | inr e ↦
      rw (report, e)
        (omega
          (arith, c, count_new b.reported i n h e, count_bound (λ j. j == i || b.reported j) n))
]

report-reported :
    (i j : ℕ) (b : Binding)
    → ((report i b).reported i ≡ true) × (b.reported j ≡ true → (report i b).reported j ≡ true)
unfolding report
report-reported i j b = ground arith

patch-reported :
    (kernel : Kernel) (r : Rel) (v : ℕ) (b : Binding)
    → ((patch kernel r v b).1.reported ≡ b.reported)
      × ((patch kernel r v b).1.unresolved ≡ b.unresolved)
unfolding patch
patch-reported kernel r v b = ground arith

everywhere {ℓ} : {A : Type ℓ} (as' : List A) → All (λ a. ℕ) as'
everywhere [] = tt
everywhere (a ∷ as') = (0, everywhere as')

each_onwards {ℓ κ} :
    {A : Type ℓ} {S : Type κ} (f : A → S → Bool × S) (a : A) (as' : List A) (s : S)
    → (f a s).0 ≡ true
    → each f (a ∷ as') s ≡ each f as' (f a s).1
unfolding each
each_onwards f a as' s e = rw (each, e) refl

each_first {ℓ κ} :
    {A : Type ℓ} {S : Type κ} (f : A → S → Bool × S) (a : A) (as' : List A) (s : S)
    → (each f (a ∷ as') s).0 ≡ true
    → (f a s).0 ≡ true
unfolding each
each_first f a as' s h = ground arith

-- After a loop that did not stop, what each round established holds, if the later rounds keep it.
each-established {ℓ κ μ} :
    {A : Type ℓ} {S : Type κ} (f : A → S → Bool × S) (I : S → Type μ) (R : S → A → Type 0)
    → ((a : A) (s : S) → I s → I (f a s).1)
    → ((a : A) (s : S) → I s → (f a s).0 ≡ true → R (f a s).1 a)
    → ((a b : A) (s : S) → I s → R s b → R (f a s).1 b)
    → (as' : List A) (s : S) → I s
    → (each f as' s).0 ≡ true
    → All (R (each f as' s).1) as'
unfolding each
each-established f I R k e p [] s i h = tt
each-established f I R k e p (a ∷ as') s i h =
    let y = each_first f a as' s h in
    let on = each_onwards f a as' s y in
    let j = k a s i in
    subst (λ t. All (R t.1) (a ∷ as')) (sym on)
      (
        (each-keeps f (λ t. I t × R t a) (λ b. ℕ) (λ b t q (j, r). (k b t j, p b a t j r)) as'
            (f a s).1 (everywhere as') (j, e a s i y)).1,
        each-established f I R k e p as' (f a s).1 j (sym (ap (λ t. t.0) on) ∙ h),
      )

module _ (kernel : Kernel) (image : List ℕ) (k : Linkage) where
  skipped_index : (r : Rel) → is_skipped image k r ≡ false → rel_sym r < k.symbols.size / 16
  unfolding is_skipped
  skipped_index r e = ground arith

  -- What a round does to the table: nothing, or a report of a symbol that is refused.
  bind_one-table :
      (r : Rel) (b : Binding)
      → ((is_refused image k r ≡ true)
          × (bind_one kernel image k r b ≡ (true, report (rel_sym r) b)))
        ⊎ ((is_refused image k r ≡ false)
            × ((bind_one kernel image k r b).1.reported ≡ b.reported)
            × ((bind_one kernel image k r b).1.unresolved ≡ b.unresolved))
  unfolding bind_one is_refused
  bind_one-table r b = ground (arith, λ (v : ℕ). patch-reported kernel r v b)

  -- The invariant of the loops: the counter is exact, and what was reported stays.
  abbrev Extends : Binding → Binding → Type 0
  Extends a b =
      IsCounted (k.symbols.size / 16) b × ((i : ℕ) → a.reported i ≡ true → b.reported i ≡ true)

  bind_one-Extends :
      k.symbols.size < 2 ^ 32
      → (a b : Binding) (r : Rel) → Extends a b
      → Extends a (bind_one kernel image k r b).1
  unfolding is_refused
  bind_one-Extends w a b r (c, m) = elim (bind_one-table r b) [
    | inl (f, e) ↦ (
      rw e (report-IsCounted _ (rel_sym r) b (omega arith) (skipped_index r (ground arith)) c),
      λ i t.
          ap (λ (x : Bool × Binding). x.1.reported i) e
          ∙ (report-reported (rel_sym r) i b).1 (m i t),
    )
    | inr (f, e, g) ↦ (
      g ∙ c ∙ sym (ap (λ (t : ℕ → Bool). count t (k.symbols.size / 16)) e),
      λ i t. ap (λ (t : ℕ → Bool). t i) e ∙ m i t,
    )
  ]

  bind_section-Extends :
      k.symbols.size < 2 ^ 32
      → (a b : Binding) (s : Shdr) → Extends a b
      → Extends a (bind_section kernel image k s b).1
  unfolding bind_section
  bind_section-Extends w a b s x =
      elim (Bool-cases (has_relocations image (names_section image) s)) [
        | inr e ↦ rw (bind_section, e) x
        | inl e ↦
            rw (bind_section, e)
              (each-keeps (bind_one kernel image k) (Extends a) (λ r. ℕ)
                (λ r b q x. bind_one-Extends w a b r x) (rel_table image s) b
                (everywhere (rel_table image s)) x)
      ]

  section_entered :
      (s : Shdr) (b : Binding)
      → has_relocations image (names_section image) s ≡ true
      → bind_section kernel image k s b ≡ each (bind_one kernel image k) (rel_table image s) b
  unfolding bind_section
  section_entered s b e = rw (bind_section, e) refl

  -- A relocation that is refused has its symbol in the table.
  abbrev IsAccounted : Binding → Rel → Type 0
  IsAccounted b r = is_refused image k r ≡ true → b.reported (rel_sym r) ≡ true

  -- One relocation of a binding that did not stop.
  bind_one-IsAccounted : (r : Rel) (b : Binding) → IsAccounted (bind_one kernel image k r b).1 r
  bind_one-IsAccounted r b f = elim (bind_one-table r b) [
    | inl (g, e) ↦
        ap (λ (x : Bool × Binding). x.1.reported (rel_sym r)) e
        ∙ (report-reported (rel_sym r) 0 b).0
    | inr (g, e, u) ↦ cc
  ]

  -- Every relocation of a section, if the section has some.
  abbrev IsCovered : Binding → Shdr → Type 0
  IsCovered b s =
      has_relocations image (names_section image) s ≡ true → All (IsAccounted b) (rel_table image s)

  module _ (w : k.symbols.size < 2 ^ 32) where
    section-IsCovered :
        (s : Shdr) (b : Binding)
        → IsCounted (k.symbols.size / 16) b
        → (bind_section kernel image k s b).0 ≡ true
        → IsCovered (bind_section kernel image k s b).1 s
    unfolding bind_section
    section-IsCovered s b c h e =
        let there = section_entered s b e in
        subst (λ (t : Bool × Binding). All (IsAccounted t.1) (rel_table image s)) (sym there)
          (each-established (bind_one kernel image k) (IsCounted (k.symbols.size / 16)) IsAccounted
            (λ r b c. (bind_one-Extends w b b r (c, λ i t. t)).0)
            (λ r b c y. bind_one-IsAccounted r b)
            (λ r q b c x f. (bind_one-Extends w b b r (c, λ i t. t)).1 (rel_sym q) (x f))
            (rel_table image s) b c (sym (ap (λ (t : Bool × Binding). t.0) there) ∙ h))

    loop-IsCovered :
        (l : Library)
        → (bind_loop kernel image k l).0 ≡ true
        → IsCounted (k.symbols.size / 16) (bind_loop kernel image k l).1
          × All (IsCovered (bind_loop kernel image k l).1) (sections image)
    unfolding bind_loop
    loop-IsCovered l h =
        let start = IsCounted-first (k.symbols.size / 16) l in
        (
          each-keeps (bind_section kernel image k) (IsCounted (k.symbols.size / 16)) (λ s. ℕ)
              (λ s b q c. (bind_section-Extends w b b s (c, λ i t. t)).0) (sections image)
              (nothing_bound l) (everywhere (sections image)) start,
          each-established (bind_section kernel image k) (IsCounted (k.symbols.size / 16)) IsCovered
              (λ s b c. (bind_section-Extends w b b s (c, λ i t. t)).0)
              (λ s b c y. section-IsCovered s b c y)
              (λ s q b c x e.
                All-map _ _ (rel_table image q)
                  (λ r a f. (bind_section-Extends w b b s (c, λ i t. t)).1 (rel_sym r) (a f)) (x e))
              (sections image) (nothing_bound l) start h,
        )

bound_parts :
    (a : Bool) (kernel : Kernel) (image : List ℕ) (k : Linkage) (l : Library)
    → (bind a kernel image k l).0 ≡ true
    → ((bind_loop kernel image k l).0 ≡ true) × ((bind_loop kernel image k l).1.unresolved ≡ 0)
unfolding bind
bound_parts a kernel image k l h = ground arith

-- When loader_bind succeeds, each relocation of a relocation section that it does not pass over has an address
-- for its import and a type that it can patch, or the import is weak and has no address.
pub bind_complete :
    (allocated : Bool) (kernel : Kernel) (image : List ℕ) (k : Linkage) (l : Library) (i j : ℕ)
    (s : Shdr) (r : Rel)
    → k.symbols.size < 2 ^ 32
    → (bind allocated kernel image k l).0 ≡ true
    → get_elem? (sections image) i ≡ some s
    → has_relocations image (names_section image) s ≡ true
    → get_elem? (rel_table image s) j ≡ some r
    → is_skipped image k r ≡ false
    → ((target_of image k r ≡ 0) × ((import_symbol image k r).info / 16 ≡ 2))
      ⊎ ((target_of image k r ≢ 0) × ((rel_type r ≡ 2) ⊎ (rel_type r ≡ 21) ⊎ (rel_type r ≡ 22)))
unfolding is_refused
bind_complete allocated kernel image k l i j s r w h e f g n =
    let (through, none_left) = bound_parts allocated kernel image k l h in
    let (counted, covered) = loop-IsCovered kernel image k w l through in
    let clean =
      count_none (bind_loop kernel image k l).1.reported (k.symbols.size / 16) (rel_sym r)
        (sym counted ∙ none_left) (skipped_index kernel image k r n) in
    let accounted = All-at _ _ (All-at _ _ covered i s e f) j r g in ground arith
