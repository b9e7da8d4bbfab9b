-- ===== src/Audio/Wav/Scanning.antt =====
-- When the loop over the chunks ends.
use vita_arc.Base.{
  ℕ, zero, suc, ◌+◌, ◌-◌, ◌*◌, ◌%◌, ◌^◌, ◌≤◌, ◌<◌, ◌≡◌, ◌⊎◌, inl, inr, refl, sym, ap, ◌∙◌, Bool,
  false, some,
}
use vita_arc.Base.{List, ltb, length, take, drop, arith, Bool-cases, Option-cases}
use vita_arc.Base.Text.{codes, bytes_eq}
use vita_arc.Audio.Wav.Defs.{Scan, chunk, scan, seek, read_u32, is_found}

-- The positions of chunks from a first one on: each next one stands behind the header, the bytes and the padding
-- of one that has its whole header in the file.
pub data IsChunk (file : List ℕ) (first : ℕ) : ℕ → Type 0 where
  start : IsChunk file first first
  after :
      {p : ℕ}
      → IsChunk file first p
      → p + 8 ≤ length file
      → IsChunk file first (p + 8 + read_u32 file (p + 4) + read_u32 file (p + 4) % 2)

-- The chunks from the second one on are among those from the first one on.
IsChunk-skip :
    (file : List ℕ) (first p : ℕ)
    → first + 8 ≤ length file
    → IsChunk file (first + 8 + read_u32 file (first + 4) + read_u32 file (first + 4) % 2) p
    → IsChunk file first p
IsChunk-skip file first p h start = after start h
IsChunk-skip file first p h (after c l) = after (IsChunk-skip file first _ h c) l

-- A chunk that is read and not too large to skip moves the position behind it.
chunk_forward :
    (allocates : ℕ → Bool) (file : List ℕ) (at next : ℕ) (s : Scan)
    → read_u32 file (at + 4) < 2 ^ 31
    → (chunk allocates file at s).0 ≡ some next
    → next ≡ at + 8 + read_u32 file (at + 4)
unfolding chunk seek
chunk_forward allocates file at next s h e = ground arith

-- A round ends the loop, whatever the fuel, or goes on at the next chunk.
scan-round :
    (at : ℕ) (allocates : ℕ → Bool) (file : List ℕ) (s : Scan)
    → (at + 8 ≤ length file → read_u32 file (at + 4) < 2 ^ 31)
    → ((r : Scan) × ((m : ℕ) → scan (suc m) allocates file at s ≡ r))
      ⊎ ((t : Scan) × (at + 8 ≤ length file)
          × ((m : ℕ)
              → scan (suc m) allocates file at s
                ≡ scan m allocates file
                    (at + 8 + read_u32 file (at + 4) + read_u32 file (at + 4) % 2)
                    t))
unfolding scan
scan-round at allocates file s h = elim (Bool-cases (ltb (length file) (at + 8))) [
  | inl e ↦ inl (s, λ m. rw (scan, e) refl)
  | inr e ↦ elim (Option-cases (chunk allocates file at s).0) [
    | inl f ↦ inl ((chunk allocates file at s).1, λ m. rw (scan, e) (rw f refl))
    | inr (next, f) ↦ elim (Bool-cases (is_found (chunk allocates file at s).1)) [
      | inl g ↦ inl ((chunk allocates file at s).1, λ m. rw (scan, e) (rw f (rw g refl)))
      | inr g ↦
          let room : at + 8 ≤ length file = ground arith in
          let there = chunk_forward allocates file at next s (h room) f in
          inr (
            (chunk allocates file at s).1,
            room,
            λ m.
                rw (scan, e)
                  (rw f (
                    rw g (
                      ap
                        (λ n.
                          scan m allocates file (n + read_u32 file (at + 4) % 2)
                            (chunk allocates file at s).1)
                        there))),
          )
    ]
  ]
]

-- Where, of the chunks that follow one another from a position on, none has a size with its highest bit set, as many
-- rounds as the file has groups of eight bytes from that position on are enough for the loop over the chunks: more
-- rounds find nothing else.
pub scan_fuel :
    (n k at : ℕ) (allocates : ℕ → Bool) (file : List ℕ) (s : Scan)
    → ((p : ℕ) → IsChunk file at p → p + 8 ≤ length file → read_u32 file (p + 4) < 2 ^ 31)
    → length file ≤ at + 8 * n
    → scan (n + k) allocates file at s ≡ scan n allocates file at s
unfolding scan
scan_fuel zero zero at allocates file s h l = refl
scan_fuel zero (suc k) at allocates file s h l = ground arith
scan_fuel (suc n) k at allocates file s h l = elim (scan-round at allocates file s (h at start)) [
  | inl (r, e) ↦
      ap (λ m. scan m allocates file at s) {y = suc (n + k)} (omega arith) ∙ e (n + k) ∙ sym (e n)
  | inr (t, room, e) ↦
      ap (λ m. scan m allocates file at s) {y = suc (n + k)} (omega arith)
      ∙ e (n + k)
      ∙ scan_fuel n k (at + 8 + read_u32 file (at + 4) + read_u32 file (at + 4) % 2) allocates file
          t (λ p c. h p (IsChunk-skip file at p room c)) (omega arith)
      ∙ sym (e n)
]

back : (at : ℕ) → seek (at + 8) (2 ^ 32 - 8) ≡ some at
unfolding seek
back at = ground arith

-- A chunk that is neither `fmt ` nor `data` and whose size is 2 ^ 32 - 8 is skipped to its own start, so the loop
-- meets it again.
chunk_stays :
    (at : ℕ) (allocates : ℕ → Bool) (file : List ℕ) (s : Scan)
    → bytes_eq (take 4 (drop at file)) (codes "fmt ") ≡ false
    → bytes_eq (take 4 (drop at file)) (codes "data") ≡ false
    → read_u32 file (at + 4) ≡ 2 ^ 32 - 8
    → chunk allocates file at s ≡ (some at, s)
unfolding chunk seek
chunk_stays at allocates file s f d z =
    rw (chunk, f) (rw d (ap (λ n. (n, s)) (ap (seek (at + 8)) z ∙ back at)))
