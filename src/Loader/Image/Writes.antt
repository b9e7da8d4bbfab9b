-- ===== src/Loader/Image/Writes.antt =====
-- Where the loader writes: inside the blocks that it mapped.
use vita_arc.Base.{
  ℕ, ◌+◌, ◌-◌, ◌*◌, ◌/◌, ◌%◌, ◌^◌, ◌≤◌, ◌<◌, ◌≡◌, inl, inr, refl, sym, ap, ◌∙◌, Bool, true, false,
  not, ◌&&◌, ◌||◌,
}
use vita_arc.Base.{List, [], ◌∷◌, leb, ◌==◌, if◌then◌else◌, All, arith, Bool-cases}
use vita_arc.Loader.Elf.{Phdr}
use vita_arc.Loader.Validation.Defs.{align_up, align_down, max_span, mapped_range}
use vita_arc.Loader.Image.Defs.{
  Kernel, Library, address_limit, target_start, block_size, fill, load_segment, load_segments,
}

abbrev in_block : ℕ → ℕ → ℕ × ℕ → Bool
in_block at size (start, n) = leb start at && leb (at + size) (start + n)

-- Whether one of the blocks holds `size` bytes at an address.
unfoldable pub in_blocks : ℕ → ℕ → List (ℕ × ℕ) → Bool
in_blocks at size [] = false
in_blocks at size (b ∷ bs) = in_block at size b || in_blocks at size bs

-- Whether each write lies in one of the blocks.
unfoldable pub within_blocks : List (ℕ × ℕ) → List (ℕ × ℕ) → Bool
unfolding in_blocks
within_blocks blocks [] = true
within_blocks blocks ((at, size) ∷ ws) = in_blocks at size blocks && within_blocks blocks ws

abbrev pub IsSafe : Library → Type 0
IsSafe l = within_blocks l.blocks l.writes ≡ true

within_blocks-cons :
    (b : ℕ × ℕ) (blocks ws : List (ℕ × ℕ))
    → within_blocks blocks ws ≡ true
    → within_blocks (b ∷ blocks) ws ≡ true
unfolding within_blocks in_blocks
within_blocks-cons b blocks [] h = refl
within_blocks-cons b blocks ((at, size) ∷ ws) h = ground (arith, within_blocks-cons b blocks ws)

-- The end of a PT_LOAD header's memory is not past the span that the validation allows.
abbrev pub IsBounded : Phdr → Type 0
IsBounded p = p.type ≡ 1 → p.vaddr + p.memsz ≤ max_span

pub and_intro : (a b : Bool) → a ≡ true → b ≡ true → (a && b) ≡ true
and_intro a b h k = ground arith

or_left : (a b : Bool) → a ≡ true → (a || b) ≡ true
or_left a b h = ground arith

in_block-intro :
    (at size start n : ℕ) → start ≤ at → at + size ≤ start + n → in_block at size (start, n) ≡ true
in_block-intro at size start n h k = ground arith

page_down : (v : ℕ) → (v / 4096 * 4096 ≤ v) × (v - v / 4096 * 4096 < 4096)
page_down v = (omega arith, omega arith)

page_up : (x : ℕ) → x < 2 ^ 31 → x ≤ (x % 2 ^ 32 + 4095) % 2 ^ 32 / 4096 * 4096
page_up x h = omega arith

-- The block of a segment holds what the segment's memory holds.
block-holds :
    (base : ℕ) (p : Phdr) (at size : ℕ)
    → p.vaddr + p.memsz ≤ max_span
    → base + align_down p.vaddr + block_size p ≤ address_limit
    → p.vaddr ≤ at
    → at + size ≤ p.vaddr + p.memsz
    → in_block ((base + at) % 2 ^ 32) size (target_start base p, block_size p) ≡ true
unfolding block_size target_start align_down align_up
block-holds base p at size b c d e =
    let (low, near) = page_down p.vaddr in
    let up = page_up (p.vaddr - p.vaddr / 4096 * 4096 + p.memsz) (omega arith) in
    in_block-intro ((base + at) % 2 ^ 32) size (target_start base p) (block_size p) (omega arith)
      (omega arith)

fill-IsSafe :
    (kernel : Kernel) (image : List ℕ) (index : ℕ) (p : Phdr) (l : Library)
    → p.vaddr + p.memsz ≤ max_span
    → p.filesz ≤ p.memsz
    → l.base + align_down p.vaddr + block_size p ≤ address_limit
    → IsSafe l
    → IsSafe (fill kernel image index p l).1
unfolding fill within_blocks in_blocks
fill-IsSafe kernel image index p l b f c s =
    let start = target_start l.base p in
    let size = block_size p in
    let to = (l.base + p.vaddr) % 2 ^ 32 in
    let own = in_block-intro start size start size (omega arith) (omega arith) in
    let holds = block-holds l.base p p.vaddr p.filesz b c (omega arith) (omega arith) in
    let kept = within_blocks-cons (start, size) l.blocks l.writes s in
    elim (Bool-cases (kernel.places index)) [
      | inr e ↦ rw (fill, e) kept
      | inl e ↦ elim (Bool-cases (kernel.clears l.writes start)) [
        | inr f ↦ rw (fill, e) (rw f kept)
        | inl f ↦ elim (Bool-cases (kernel.copies ((start, size) ∷ l.writes) to)) [
          | inr g ↦ rw (fill, e) (rw f (rw g (and_intro _ _ (or_left _ _ own) kept)))
          | inl g ↦
              rw (fill, e)
                (rw f
                  (rw g (and_intro _ _ (or_left _ _ holds) (and_intro _ _ (or_left _ _ own) kept))))
        ]
      ]
    ]

fill-blocks :
    (kernel : Kernel) (image : List ℕ) (index : ℕ) (p : Phdr) (l : Library)
    → ((fill kernel image index p l).1.blocks ≡ (target_start l.base p, block_size p) ∷ l.blocks)
      × ((fill kernel image index p l).1.base ≡ l.base)
unfolding fill
fill-blocks kernel image index p l = ground arith

load_segment-IsSafe :
    (kernel : Kernel) (image : List ℕ) (index : ℕ) (p : Phdr) (l : Library)
    → IsBounded p
    → IsSafe l
    → IsSafe (load_segment kernel image index p l).1
unfolding load_segment
load_segment-IsSafe kernel image index p l b s = ground (arith, fill-IsSafe kernel image index p l)

-- The blocks stay where they are, and the base with them.
pub record Keeps (l m : Library) : Type 0 where
  pub base : m.base ≡ l.base
  pub blocks : (at size : ℕ) → in_blocks at size l.blocks ≡ true → in_blocks at size m.blocks ≡ true

load_segment-Keeps :
    (kernel : Kernel) (image : List ℕ) (index : ℕ) (p : Phdr) (l : Library)
    → Keeps l (load_segment kernel image index p l).1
unfolding load_segment in_blocks
load_segment-Keeps kernel image index p l = record {
  base = ground (arith, fill-blocks kernel image index p l);
  blocks = λ at size h. ground (
    arith,
    fill-blocks kernel image index p l,
    ap (λ bs. in_blocks at size bs) (fill-blocks kernel image index p l).0,
  );
}

load_segment-loaded :
    (kernel : Kernel) (image : List ℕ) (index : ℕ) (p : Phdr) (l : Library)
    → (load_segment kernel image index p l).0 ≡ true
    → p.type ≡ 1
    → 1 ≤ p.memsz
    → (load_segment kernel image index p l ≡ fill kernel image index p l)
      × (l.base + align_down p.vaddr + block_size p ≤ address_limit)
unfolding load_segment
load_segment-loaded kernel image index p l r t n = ground arith

-- A segment that was loaded has its memory in a block.
load_segment-holds :
    (kernel : Kernel) (image : List ℕ) (index : ℕ) (p : Phdr) (l : Library) (at size : ℕ)
    → IsBounded p
    → (load_segment kernel image index p l).0 ≡ true
    → p.type ≡ 1
    → 1 ≤ size
    → p.vaddr ≤ at
    → at + size ≤ p.vaddr + p.memsz
    → in_blocks ((l.base + at) % 2 ^ 32) size (load_segment kernel image index p l).1.blocks ≡ true
unfolding load_segment in_blocks
load_segment-holds kernel image index p l at size b r t n d e =
    let (same, limit) = load_segment-loaded kernel image index p l r t (omega arith) in
    let holds = block-holds l.base p at size (b t) limit d e in
    ap (λ x. in_blocks ((l.base + at) % 2 ^ 32) size x.1.blocks) same
    ∙ ap (λ bs. in_blocks ((l.base + at) % 2 ^ 32) size bs) (fill-blocks kernel image index p l).0
    ∙ or_left _ _ holds

pub load_segments-IsSafe :
    (kernel : Kernel) (image : List ℕ) (index : ℕ) (ps : List Phdr) (l : Library)
    → All IsBounded ps
    → IsSafe l
    → IsSafe (load_segments kernel image index ps l).1
unfolding load_segments
load_segments-IsSafe kernel image index [] l b s = s
load_segments-IsSafe kernel image index (p ∷ ps) l b s = ground (
  arith,
  load_segment-IsSafe kernel image index p l b.0 s,
  load_segments-IsSafe kernel image (index + 1) ps (load_segment kernel image index p l).1 b.1,
)

pub load_segments-Keeps :
    (kernel : Kernel) (image : List ℕ) (index : ℕ) (ps : List Phdr) (l : Library)
    → Keeps l (load_segments kernel image index ps l).1
unfolding load_segments
load_segments-Keeps kernel image index [] l = record { base = refl; blocks = λ at size h. h }
load_segments-Keeps kernel image index (p ∷ ps) l =
    let one = load_segment-Keeps kernel image index p l in
    let m = (load_segment kernel image index p l).1 in
    let rest = load_segments-Keeps kernel image (index + 1) ps m in
    elim (Bool-cases (load_segment kernel image index p l).0) [
      | inl e ↦
          rw (load_segments, e)
            (record {
              base = rest.base ∙ one.base;
              blocks = λ at size h. rest.blocks at size (one.blocks at size h);
            })
      | inr e ↦ rw (load_segments, e) one
    ]

loop_onwards :
    (kernel : Kernel) (image : List ℕ) (index : ℕ) (p : Phdr) (ps : List Phdr) (l : Library)
    → (load_segment kernel image index p l).0 ≡ true
    → load_segments kernel image index (p ∷ ps) l
      ≡ load_segments kernel image (index + 1) ps (load_segment kernel image index p l).1
unfolding load_segments
loop_onwards kernel image index p ps l e = rw (load_segments, e) refl

both_true :
    (a b : Bool × Library)
    → (if not a.0 then (false, a.1) else b).0 ≡ true
    → (a.0 ≡ true) × (b.0 ≡ true)
both_true (true, l) b h = (refl, h)
both_true (false, l) b h = cc

-- After all segments were loaded, each range inside one of them lies in a block.
pub load_segments-holds :
    (kernel : Kernel) (image : List ℕ) (index : ℕ) (ps : List Phdr) (l : Library) (at size : ℕ)
    → All IsBounded ps
    → (load_segments kernel image index ps l).0 ≡ true
    → 1 ≤ size
    → mapped_range ps at size ≡ true
    → in_blocks ((l.base + at) % 2 ^ 32) size (load_segments kernel image index ps l).1.blocks
      ≡ true
unfolding load_segments mapped_range
load_segments-holds kernel image index [] l at size b r n h = cc
load_segments-holds kernel image index (p ∷ ps) l at size b r n h =
    let m = (load_segment kernel image index p l).1 in
    let (loaded, more) =
      both_true (load_segment kernel image index p l) (load_segments kernel image (index + 1) ps m)
        r in
    let one = load_segment-Keeps kernel image index p l in
    let rest = load_segments-Keeps kernel image (index + 1) ps m in
    let there =
      (ap (λ (x : Bool × Library). in_blocks ((l.base + at) % 2 ^ 32) size x.1.blocks)
        (loop_onwards kernel image index p ps l loaded)) in
    there
    ∙ elim (Bool-cases (p.type == 1 && leb p.vaddr at && leb (at + size) (p.vaddr + p.memsz))) [
      | inl c ↦ rest.blocks ((l.base + at) % 2 ^ 32) size (
          load_segment-holds kernel image index p l at size b.0 loaded (ground arith) n
            (ground arith) (ground arith))
      | inr c ↦
          ap
            (λ x.
              in_blocks ((x + at) % 2 ^ 32) size
                (load_segments kernel image (index + 1) ps m).1.blocks)
            (sym one.base)
          ∙ load_segments-holds kernel image (index + 1) ps m at size b.1 more n (ground arith)
    ]
