-- ===== src/Loader/Validation/Segments.antt =====
-- The segment checks: every loaded segment fits, no two share a page, and there are 1 to 16 of them.
use Prim.Native.Nat.{bit_and}
use vita_arc.Base.{
  ℕ, zero, suc, ◌+◌, ◌-◌, ◌*◌, ◌/◌, ◌%◌, ◌^◌, ◌≤◌, ◌<◌, ◌≡◌, ◌≢◌, ◌⊎◌, inl, inr, true, false, Bool,
}
use vita_arc.Base.{some, List, [], ◌∷◌, get_elem?, arith, ◌==◌, if◌then◌else◌, not, ◌&&◌}
use native.Mathlib.Decide.{dec_lt}
use vita_arc.Base.Bits.{power_of_two}
use vita_arc.Loader.Elf.{Phdr}
use vita_arc.Loader.Validation.Defs.{
  segment_ok, overlaps, overlaps_any, segments_loop, segments_ok, max_span, max_segments, page_size,
}

-- The headers that are mapped: `PT_LOAD` with bytes in memory.
abbrev is_loaded : Phdr → Bool
is_loaded p = p.type == 1 && not (p.memsz == 0)

abbrev count_loaded : List Phdr → ℕ
count_loaded [] = 0
count_loaded (p ∷ ps) = if is_loaded p then count_loaded ps + 1 else count_loaded ps

module _ (file_size : ℕ) where
  loop-segment_ok :
      (previous ps : List Phdr) (loads i : ℕ) (p : Phdr)
      → segments_loop file_size previous ps loads ≡ true
      → get_elem? ps i ≡ some p
      → p.type ≡ 1
      → segment_ok file_size p ≡ true
  unfolding segments_loop
  loop-segment_ok previous [] loads i p h e t = cc
  loop-segment_ok previous (q ∷ ps) loads zero p h e t = ground arith
  loop-segment_ok previous (q ∷ ps) loads (suc i) p h e t = ground (
    arith,
    loop-segment_ok (q ∷ previous) ps loads i p,
    loop-segment_ok (q ∷ previous) ps (loads + 1) i p,
  )

  loop-count :
      (previous ps : List Phdr) (loads : ℕ)
      → loads ≤ max_segments
      → segments_loop file_size previous ps loads ≡ true
      → (0 < loads + count_loaded ps) × (loads + count_loaded ps ≤ max_segments)
  unfolding segments_loop
  loop-count previous [] loads b h = ground arith
  loop-count previous (q ∷ ps) loads b h =
      ground (arith, loop-count (q ∷ previous) ps loads, loop-count (q ∷ previous) ps (loads + 1))

overlaps_any_at :
    (p q : Phdr) (qs : List Phdr) (k : ℕ)
    → overlaps_any p qs ≡ false
    → get_elem? qs k ≡ some q
    → overlaps p q ≡ false
unfolding overlaps_any
overlaps_any_at p q [] k h e = cc
overlaps_any_at p q (x ∷ qs) zero h e = ground arith
overlaps_any_at p q (x ∷ qs) (suc k) h e = ground (arith, overlaps_any_at p q qs k)

module _ (file_size : ℕ) where
  loop-previous :
      (previous ps : List Phdr) (loads i k : ℕ) (p q : Phdr)
      → segments_loop file_size previous ps loads ≡ true
      → get_elem? ps i ≡ some p
      → is_loaded p ≡ true
      → get_elem? previous k ≡ some q
      → overlaps p q ≡ false
  unfolding segments_loop
  loop-previous previous [] loads i k p q h e l f = cc
  loop-previous previous (x ∷ ps) loads zero k p q h e l f =
      ground (arith, overlaps_any_at p q previous k)
  loop-previous previous (x ∷ ps) loads (suc i) k p q h e l f = ground (
    arith,
    loop-previous (x ∷ previous) ps loads i (suc k) p q,
    loop-previous (x ∷ previous) ps (loads + 1) i (suc k) p q,
  )

  loop-apart :
      (previous ps : List Phdr) (loads i j : ℕ) (p q : Phdr)
      → segments_loop file_size previous ps loads ≡ true
      → i < j
      → get_elem? ps j ≡ some p
      → is_loaded p ≡ true
      → get_elem? ps i ≡ some q
      → overlaps p q ≡ false
  unfolding segments_loop
  loop-apart previous [] loads i j p q h b e l f = cc
  loop-apart previous (x ∷ ps) loads i zero p q h b e l f = absurd (omega arith)
  loop-apart previous (x ∷ ps) loads zero (suc j) p q h b e l f = ground (
    arith,
    loop-previous (x ∷ previous) ps loads j 0 p x,
    loop-previous (x ∷ previous) ps (loads + 1) j 0 p x,
  )
  loop-apart previous (x ∷ ps) loads (suc i) (suc j) p q h b e l f = ground (
    arith,
    loop-apart (x ∷ previous) ps loads i j p q,
    loop-apart (x ∷ previous) ps (loads + 1) i j p q,
  )

-- The bytes of memory that a segment's pages cover.
pub record OnPages (p : Phdr) (address : ℕ) : Type 0 where
  pub from : p.vaddr / page_size * page_size ≤ address
  pub to : address < (p.vaddr + p.memsz + (page_size - 1)) / page_size * page_size

segment_ok-parts :
    (file_size : ℕ) (p : Phdr)
    → segment_ok file_size p ≡ true
    → (p.filesz ≤ p.memsz)
      × (p.offset + p.filesz ≤ file_size)
      × (p.vaddr + p.memsz ≤ max_span)
      × ((p.align ≤ 1)
          ⊎ ((0 < p.align)
              × (bit_and p.align (p.align - 1) ≡ 0)
              × ((p.vaddr + 2 ^ 32 - p.offset) % 2 ^ 32 % p.align ≡ 0)))
unfolding segment_ok
segment_ok-parts file_size p h = ground arith

-- Inside the span the page sums do not wrap, so the inner loop's test is about the covered pages.
overlaps-OnPages :
    (p q : Phdr) (address : ℕ)
    → overlaps p q ≡ false
    → is_loaded q ≡ true
    → p.vaddr + p.memsz ≤ max_span
    → q.vaddr + q.memsz ≤ max_span
    → OnPages p address
    → ¬ OnPages q address
unfolding overlaps
overlaps-OnPages p q address o l s t a b = ground arith

-- If the check passes, a PT_LOAD header has its bytes inside the file, no more of them than memory, its
-- memory inside the library's span, and an alignment above 1 is a power of two to which the address
-- and the offset agree (as 32-bit words).
pub segments_ok-fits :
    (file_size : ℕ) (ps : List Phdr) (i : ℕ) (p : Phdr)
    → segments_ok file_size ps ≡ true
    → get_elem? ps i ≡ some p
    → p.type ≡ 1
    → (p.filesz ≤ p.memsz)
      × (p.offset + p.filesz ≤ file_size)
      × (p.vaddr + p.memsz ≤ max_span)
      × ((p.align ≤ 1)
          ⊎ (((k : ℕ) × (p.align ≡ 2 ^ k))
              × ((p.vaddr + 2 ^ 32 - p.offset) % 2 ^ 32 % p.align ≡ 0)))
unfolding segments_ok
segments_ok-fits file_size ps i p h e t =
    let (a, b, c, d) = segment_ok-parts file_size p (loop-segment_ok file_size [] ps 0 i p h e t) in
    (
      a,
      b,
      c,
      elim (d) [
        | inl small ↦ inl small
        | inr (positive, masked, congruent) ↦ inr (power_of_two p.align positive masked, congruent)
      ],
    )

segments_ok-span :
    (file_size : ℕ) (ps : List Phdr) (i : ℕ) (p : Phdr)
    → segments_ok file_size ps ≡ true
    → get_elem? ps i ≡ some p
    → is_loaded p ≡ true
    → p.vaddr + p.memsz ≤ max_span
segments_ok-span file_size ps i p h e l = ground (arith, segments_ok-fits file_size ps i p h e)

-- If the check passes, no page of memory belongs to two loaded segments.
pub segments_ok-apart :
    (file_size : ℕ) (ps : List Phdr) (i j : ℕ) (p q : Phdr) (address : ℕ)
    → segments_ok file_size ps ≡ true
    → i ≢ j
    → get_elem? ps i ≡ some p
    → get_elem? ps j ≡ some q
    → is_loaded p ≡ true
    → is_loaded q ≡ true
    → OnPages p address
    → ¬ OnPages q address
unfolding segments_ok
segments_ok-apart file_size ps i j p q address h n e f l m a b =
    let s = segments_ok-span file_size ps i p h e l in
    let t = segments_ok-span file_size ps j q h f m in
    elim (dec_lt i j) [
      | yes lt ↦
          overlaps-OnPages q p address (loop-apart file_size [] ps 0 i j q p h lt f m e) l t s b a
      | no ge ↦
          overlaps-OnPages p q address (loop-apart file_size [] ps 0 j i p q h (omega arith) e l f)
            m s t a b
    ]

-- If the check passes, between 1 and 16 segments are loaded.
segments_ok-count :
    (file_size : ℕ) (ps : List Phdr)
    → segments_ok file_size ps ≡ true
    → (0 < count_loaded ps) × (count_loaded ps ≤ max_segments)
unfolding segments_ok
segments_ok-count file_size ps h = omega (arith, loop-count file_size [] ps 0 (omega arith) h)
