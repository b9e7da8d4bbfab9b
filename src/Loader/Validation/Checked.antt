-- ===== src/Loader/Validation/Checked.antt =====
-- What the section, symbol and relocation checks establish of the tables that the loader then reads.
use vita_arc.Base.{
  ℕ, zero, suc, ◌+◌, ◌-◌, ◌*◌, ◌/◌, ◌%◌, ◌≤◌, ◌<◌, ◌≡◌, ◌⊎◌, inl, inr, refl, true, ap, sym, ◌∙◌,
}
use vita_arc.Base.{Option, none, some, List, [], ◌∷◌, get_elem?, drop, arith, Option-cases}
use native.Mathlib.Nat.{zero-add}
use mathlib.Core.Path.{subst}
use mathlib.Core.Option.{some-injective}
use vita_arc.Base.Text.{has_nul_at, get_elem?-drop, has_nul}
use vita_arc.Loader.Elf.{Phdr, Shdr, read_ehdr, programs, sections}
use vita_arc.Loader.Validation.Defs.{file_range}
use vita_arc.Loader.Validation.Sections.{
  Found, View, section_fits, section_round, sections_loop, make_view, names_section, sections_ok,
}

-- The sections that the loop has kept, at their indices.
abbrev SymbolsAt : ℕ → List Shdr → Option (ℕ × Shdr) → Type 0
SymbolsAt file_size all none = Unit
SymbolsAt file_size all (some (i, s)) =
    (get_elem? all i ≡ some s) × (s.type ≡ 11) × (s.size % 16 ≡ 0) × (s.offset + s.size ≤ file_size)

abbrev StringsAt : ℕ → List Shdr → Option (ℕ × Shdr) → Type 0
StringsAt file_size all none = Unit
StringsAt file_size all (some (j, s)) =
    (get_elem? all j ≡ some s) × (s.type ≡ 3) × (s.offset + s.size ≤ file_size)

record IsFound (file_size : ℕ) (all : List Shdr) (found : Found) : Type 0 where
  symbols : SymbolsAt file_size all found.symbols
  strings : StringsAt file_size all found.strings

fits_in_file :
    (file_size : ℕ) (image : List ℕ) (names s : Shdr)
    → section_fits file_size image names s ≡ true
    → (s.type ≡ 8) ⊎ (s.offset + s.size ≤ file_size)
unfolding section_fits
fits_in_file file_size image names s h = ground arith

section_fits-name :
    (file_size : ℕ) (image : List ℕ) (names s : Shdr)
    → section_fits file_size image names s ≡ true
    → (s.name < names.size)
      × (has_nul (names.size - s.name) (drop (names.offset + s.name) image) ≡ true)
unfolding section_fits
section_fits-name file_size image names s h = ground arith

section_fits-nul :
    (file_size : ℕ) (image : List ℕ) (names s : Shdr)
    → section_fits file_size image names s ≡ true
    → (k : ℕ) × (s.name + k < names.size) × (get_elem? image (names.offset + s.name + k) ≡ some 0)
section_fits-nul file_size image names s h =
    let (inside, nul) = section_fits-name file_size image names s h in
    let (k, lt, e) = has_nul_at (names.size - s.name) (drop (names.offset + s.name) image) nul in
    (k, omega (arith, lt, inside), sym (get_elem?-drop (names.offset + s.name) k image) ∙ e)

round-IsFound :
    (file_size : ℕ) (image : List ℕ) (ps : List Phdr) (names : Shdr) (all : List Shdr) (index : ℕ)
    (s : Shdr) (found found' : Found)
    → section_round file_size image ps names index s found ≡ some found'
    → get_elem? all index ≡ some s
    → IsFound file_size all found
    → (section_fits file_size image names s ≡ true) × IsFound file_size all found'
unfolding section_round
round-IsFound file_size image ps names all index s found found' h e v =
    ground (arith, fits_in_file file_size image names s)

round-fits :
    (file_size : ℕ) (image : List ℕ) (ps : List Phdr) (names : Shdr) (index : ℕ) (s : Shdr)
    (found found' : Found)
    → section_round file_size image ps names index s found ≡ some found'
    → section_fits file_size image names s ≡ true
unfolding section_round
round-fits file_size image ps names index s found found' h = ground arith

loop-IsFound :
    (file_size : ℕ) (image : List ℕ) (ps : List Phdr) (names : Shdr) (all : List Shdr) (index : ℕ)
    (ss : List Shdr) (found found' : Found)
    → sections_loop file_size image ps names index ss found ≡ some found'
    → ((k : ℕ) → get_elem? all (index + k) ≡ get_elem? ss k)
    → IsFound file_size all found
    → IsFound file_size all found'
unfolding sections_loop
loop-IsFound file_size image ps names all index [] found found' h at v =
    subst (IsFound file_size all) (some-injective found found' h) v
loop-IsFound file_size image ps names all index (s ∷ ss) found found' h at v =
    elim (Option-cases (section_round file_size image ps names index s found)) [
      | inl e ↦ absurd (ground (arith, h, e))
      | inr (next, e) ↦
          loop-IsFound file_size image ps names all (index + 1) ss next found' (ground arith)
            (λ k. ap (get_elem? all) (omega arith) ∙ at (suc k))
            (round-IsFound file_size image ps names all index s found next e
              (ap (get_elem? all) (omega arith) ∙ at 0) v).1
    ]

loop-fits :
    (file_size : ℕ) (image : List ℕ) (ps : List Phdr) (names : Shdr) (index k : ℕ) (ss : List Shdr)
    (found found' : Found) (s : Shdr)
    → sections_loop file_size image ps names index ss found ≡ some found'
    → get_elem? ss k ≡ some s
    → section_fits file_size image names s ≡ true
unfolding sections_loop
loop-fits file_size image ps names index k [] found found' s h e = cc
loop-fits file_size image ps names index zero (x ∷ ss) found found' s h e =
    elim (Option-cases (section_round file_size image ps names index x found)) [
      | inl r ↦ absurd (ground (arith, h, r))
      | inr (next, r) ↦ ground (arith, round-fits file_size image ps names index x found next r)
    ]
loop-fits file_size image ps names index (suc k) (x ∷ ss) found found' s h e =
    elim (Option-cases (section_round file_size image ps names index x found)) [
      | inl r ↦ absurd (ground (arith, h, r))
      | inr (next, r) ↦
          loop-fits file_size image ps names (index + 1) k ss next found' s (ground arith) e
    ]

-- The tables that `elf_view_t` points to.
pub record IsChecked (file_size : ℕ) (image : List ℕ) (v : View) : Type 0 where
  pub names_are : v.names ≡ names_section image
  pub names_fit : v.names.offset + v.names.size ≤ file_size
  pub symbols_at : get_elem? (sections image) v.symbol_section ≡ some v.symbols
  pub symbols_fit : v.symbols.offset + v.symbols.size ≤ file_size
  pub symbols_count : v.symbol_count * 16 ≡ v.symbols.size
  pub strings_at : get_elem? (sections image) v.symbols.link ≡ some v.strings
  pub strings_fit : v.strings.offset + v.strings.size ≤ file_size

abbrev view_of : Shdr → ℕ → Shdr → Shdr → View
view_of names i symbols strings = record {
  names = names;
  symbols = symbols;
  strings = strings;
  symbol_section = i;
  symbol_count = symbols.size / 16;
}

make_view-some :
    (names symbols strings : Shdr) (shnum i j : ℕ) (v : View)
    → make_view names shnum (record { symbols = some (i, symbols); strings = some (j, strings) })
      ≡ some v
    → (symbols.link ≡ j) × (view_of names i symbols strings ≡ v)
unfolding make_view
make_view-some names symbols strings shnum i j v h = ground arith

make_view-IsChecked :
    (file_size : ℕ) (image : List ℕ) (names : Shdr) (shnum : ℕ) (sy st : Option (ℕ × Shdr))
    (v : View)
    → make_view names shnum (record { symbols = sy; strings = st }) ≡ some v
    → names ≡ names_section image
    → names.offset + names.size ≤ file_size
    → SymbolsAt file_size (sections image) sy
    → StringsAt file_size (sections image) st
    → IsChecked file_size image v
make_view-IsChecked file_size image names shnum none st v h e n a b = unfold make_view in cc
make_view-IsChecked file_size image names shnum (some (i, s)) none v h e n a b =
    unfold make_view in cc
make_view-IsChecked file_size image names shnum (some (i, s)) (some (j, t)) v h e n a b =
    let (link, is) = make_view-some names s t shnum i j v h in
    subst (IsChecked file_size image) is (record {
      names_are = e;
      names_fit = n;
      symbols_at = a.0;
      symbols_fit = a.3;
      symbols_count = omega arith;
      strings_at = ap (get_elem? (sections image)) link ∙ b.0;
      strings_fit = b.2;
    })

sections_ok-parts :
    (file_size : ℕ) (image : List ℕ) (v : View)
    → sections_ok file_size image ≡ some v
    → let names = names_section image in
      (names.offset + names.size ≤ file_size)
      × (found : Found) × (sections_loop file_size image
            (programs image)
            names
            0
            (sections image)
            (record { symbols = none; strings = none })
          ≡ some found)
      × (make_view names (read_ehdr image).shnum found ≡ some v)
unfolding sections_ok file_range
sections_ok-parts file_size image v h =
    elim (Option-cases (
      sections_loop file_size image (programs image) (names_section image) 0 (sections image)
        (record { symbols = none; strings = none }))) [
          | inl e ↦ absurd (ground (arith, h, e))
          | inr (found, e) ↦ (ground (arith, h, e), found, e, ground (arith, h, e))
        ]

-- If the section checks pass, the section of names is the one that the header names, the view's symbol
-- table and string table are sections of the file, the second is the one that the first is linked to,
-- both lie inside the file with the names, and the symbols fill their section.
pub sections_ok-IsChecked :
    (file_size : ℕ) (image : List ℕ) (v : View)
    → sections_ok file_size image ≡ some v
    → IsChecked file_size image v
sections_ok-IsChecked file_size image v h =
    let (n, found, e, m) = sections_ok-parts file_size image v h in
    let f =
      loop-IsFound file_size image (programs image) (names_section image) (sections image) 0
        (sections image) (record { symbols = none; strings = none }) found e
        (λ k. ap (get_elem? (sections image)) (zero-add k))
        (record { symbols = tt; strings = tt }) in
    make_view-IsChecked file_size image (names_section image) (read_ehdr image).shnum found.symbols
      found.strings v m refl n f.symbols f.strings

-- If the section checks pass, every section with bytes in the file lies inside it, and its name ends
-- with a NUL inside the section of names.
sections_ok-names :
    (file_size : ℕ) (image : List ℕ) (v : View) (i : ℕ) (s : Shdr)
    → sections_ok file_size image ≡ some v
    → get_elem? (sections image) i ≡ some s
    → ((s.type ≡ 8) ⊎ (s.offset + s.size ≤ file_size))
      × (k : ℕ) × (s.name + k < v.names.size)
      × (get_elem? image (v.names.offset + s.name + k) ≡ some 0)
sections_ok-names file_size image v i s h e =
    let (n, found, l, m) = sections_ok-parts file_size image v h in
    let fits =
      loop-fits file_size image (programs image) (names_section image) 0 i (sections image)
        (record { symbols = none; strings = none }) found s l e in
    let (k, lt, at) = section_fits-nul file_size image (names_section image) s fits in
    let same = (sections_ok-IsChecked file_size image v h).names_are in
    (
      fits_in_file file_size image (names_section image) s fits,
      k,
      omega (arith, lt, ap (λ (t : Shdr). t.size) same),
      ap (λ (t : Shdr). get_elem? image (t.offset + s.name + k)) same ∙ at,
    )
