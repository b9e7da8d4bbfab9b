-- ===== src/Jni/References/Popping.antt =====
-- What popping local frames does to the table.
use vita_arc.Base.{ℕ, zero, suc, ◌+◌, ◌≡◌, Bool, true, false, not, ◌&&◌, ◌||◌, none}
use vita_arc.Base.{
  List, [], ◌∷◌, ltb, leb, ◌==◌, if◌then◌else◌, arith, refl, ◌∙◌, inl, inr, Bool-cases, sym, ap,
}
use vita_arc.Jni.References.Defs.{Block, Frame, Refs}
use vita_arc.Jni.References.Defs.{find, is_free, write_frames}
use vita_arc.Jni.References.Frames.{unlink, release_cells, release_blocks, pop_frame}
use vita_arc.Jni.References.Frames.{leave_loop, leave_native, cleanup_loop, cleanup_frames}
use vita_arc.Jni.References.Table.{contains-InUse}
use vita_arc.Jni.References.Deletion.{WellFormed, find-unlink, unlink-WellFormed}
use native.Mathlib.Decide.{ℕ_discrete}
use mathlib.Core.Path.{subst}

abbrev in_cells : ℕ → ℕ → ℕ → Bool
in_cells v base n = leb base v && ltb v (base + n)

unfoldable pub in_blocks : ℕ → List Block → Bool
in_blocks v [] = false
in_blocks v (b ∷ bs) = in_cells v b.base b.capacity || in_blocks v bs

-- Whether the cell of a reference stands in one of the frames.
unfoldable pub in_frames : ℕ → List Frame → Bool
in_frames v [] = false
in_frames v (f ∷ fs) = in_blocks v f.blocks || in_frames v fs

-- The table after a loss of the references in `lost`.
abbrev Loses : (ℕ → Bool) → Refs → Refs → Type 0
Loses lost s s' = WellFormed s' × ((w : ℕ) → find w s' ≡ (if lost w then none else find w s))

release_one :
    (base : ℕ) (s : Refs)
    → WellFormed s
    → Loses (λ w. base == w) s (if is_free (s.cell base) then s else unlink base s)
unfolding find
release_one base s h = elim (Bool-cases (is_free (s.cell base))) [
  | inl f ↦ rw f (
    h,
    λ w. elim (ℕ_discrete base w) [
      | yes p ↦ subst (λ x. find x s ≡ (if base == x then none else find x s)) p (unlisted f)
      | no ne ↦ ground arith
    ],
  )
  | inr f ↦ rw f (unlink-WellFormed base s h, λ w. find-unlink base w s h)
]
  where
    unlisted :
        is_free (s.cell base) ≡ true → find base s ≡ (if base == base then none else find base s)
    unlisted f = ground (arith, contains-InUse base s.cell s.list h.1)

Loses-trans :
    (p q : ℕ → Bool) (s s1 s2 : Refs) → Loses p s s1 → Loses q s1 s2 → Loses (λ w. p w || q w) s s2
Loses-trans p q s s1 s2 h k = (k.0, λ w. ground (arith, h.1 w, k.1 w))

Loses-ext : (p q : ℕ → Bool) (s s' : Refs) → ((w : ℕ) → p w ≡ q w) → Loses p s s' → Loses q s s'
Loses-ext p q s s' e h = (h.0, λ w. ground (arith, e w, h.1 w))

release_cells-Loses :
    (base n : ℕ) (s : Refs)
    → WellFormed s
    → Loses (λ w. in_cells w base n) s (release_cells base n s)
unfolding release_cells
release_cells-Loses base zero s h = (h, λ w. ground arith)
release_cells-Loses base (suc n) s h =
    let one = release_one base s h in
    Loses-ext (λ w. base == w || in_cells w (base + 1) n) (λ w. in_cells w base (suc n)) s
      (release_cells base (suc n) s) (λ w. ground arith)
      (Loses-trans (λ w. base == w) (λ w. in_cells w (base + 1) n) s
        (if is_free (s.cell base) then s else unlink base s) (release_cells base (suc n) s) one
        (release_cells-Loses (base + 1) n (if is_free (s.cell base) then s else unlink base s)
          one.0))

release_blocks-Loses :
    (bs : List Block) (s : Refs)
    → WellFormed s
    → Loses (λ w. in_blocks w bs) s (release_blocks bs s)
unfolding release_blocks in_blocks
release_blocks-Loses [] s h = (h, λ w. ground arith)
release_blocks-Loses (b ∷ bs) s h =
    let one = release_cells-Loses b.base b.capacity s h in
    Loses-trans (λ w. in_cells w b.base b.capacity) (λ w. in_blocks w bs) s
      (release_cells b.base b.capacity s) (release_blocks (b ∷ bs) s) one
      (release_blocks-Loses bs (release_cells b.base b.capacity s) one.0)

release_cells-frames : (base n : ℕ) (s : Refs) → (release_cells base n s).frames ≡ s.frames
unfolding release_cells unlink
release_cells-frames base zero s = refl
release_cells-frames base (suc n) s = elim (Bool-cases (is_free (s.cell base))) [
  | inl f ↦ rw (release_cells, f) (release_cells-frames (base + 1) n s)
  | inr f ↦ rw (release_cells, f) (release_cells-frames (base + 1) n (unlink base s))
]

release_blocks-frames : (bs : List Block) (s : Refs) → (release_blocks bs s).frames ≡ s.frames
unfolding release_blocks
release_blocks-frames [] s = refl
release_blocks-frames (b ∷ bs) s =
    release_blocks-frames bs (release_cells b.base b.capacity s)
    ∙ release_cells-frames b.base b.capacity s

pop_frame-top :
    (t : ℕ) (s : Refs) (f : Frame) (fs : List Frame)
    → s.frames t ≡ f ∷ fs
    → pop_frame t s ≡ release_blocks f.blocks (record s { frames = write_frames s.frames t fs })
unfolding pop_frame
pop_frame-top t s f fs e = ground arith

pop_frame-none : (t : ℕ) (s : Refs) → s.frames t ≡ [] → pop_frame t s ≡ s
unfolding pop_frame
pop_frame-none t s e = ground arith

-- `__pop_frame` removes the references of the top frame's slots, and only those; the frame's parent is the
-- top frame then.
pop_frame-Loses :
    (t : ℕ) (s : Refs) (f : Frame) (fs : List Frame)
    → WellFormed s
    → s.frames t ≡ f ∷ fs
    → Loses (λ w. in_blocks w f.blocks) s (pop_frame t s) × ((pop_frame t s).frames t ≡ fs)
unfolding find
pop_frame-Loses t s f fs h e =
    let s' = record s { frames = write_frames s.frames t fs } in
    subst (λ x. Loses (λ w. in_blocks w f.blocks) s x × (x.frames t ≡ fs))
      (sym (pop_frame-top t s f fs e))
      (
        release_blocks-Loses f.blocks s' h,
        ap (λ k. k t) (release_blocks-frames f.blocks s') ∙ ground arith,
      )

-- The frames that `jni_refs_leave_native` pops: up to the first native boundary, and it.
unfoldable pub left : List Frame → List Frame
left [] = []
left (f ∷ fs) = if not f.native_boundary then f ∷ left fs else f ∷ []

leave_loop-Loses :
    (t : ℕ) (fs : List Frame) (s : Refs)
    → WellFormed s
    → s.frames t ≡ fs
    → Loses (λ w. in_frames w (left fs)) s (leave_loop t fs s)
unfolding leave_loop left in_frames
leave_loop-Loses t [] s h e =
    subst (λ x. Loses (λ w. false) s x) (sym (pop_frame-none t s e)) (h, λ w. refl)
leave_loop-Loses t (f ∷ fs) s h e =
    let (one, e1) = pop_frame-Loses t s f fs h e in
    let rest = leave_loop-Loses t fs (pop_frame t s) one.0 e1 in
    elim (Bool-cases f.native_boundary) [
      | inl b ↦
          Loses-ext (λ w. in_blocks w f.blocks) (λ w. in_frames w (left (f ∷ fs))) s
            (leave_loop t (f ∷ fs) s) (λ w. ground arith) (rw (leave_loop, b) one)
      | inr b ↦
          Loses-ext (λ w. in_blocks w f.blocks || in_frames w (left fs))
            (λ w. in_frames w (left (f ∷ fs))) s (leave_loop t (f ∷ fs) s) (λ w. ground arith)
            (Loses-trans (λ w. in_blocks w f.blocks) (λ w. in_frames w (left fs)) s (pop_frame t s)
              (leave_loop t (f ∷ fs) s) one (rw (leave_loop, b) rest))
    ]

cleanup_loop-Loses :
    (t : ℕ) (fs : List Frame) (s : Refs)
    → WellFormed s
    → s.frames t ≡ fs
    → Loses (λ w. in_frames w fs) s (cleanup_loop t fs s) × ((cleanup_loop t fs s).frames t ≡ [])
unfolding cleanup_loop in_frames
cleanup_loop-Loses t [] s h e = ((h, λ w. ground arith), e)
cleanup_loop-Loses t (f ∷ fs) s h e =
    let (one, e1) = pop_frame-Loses t s f fs h e in
    let (rest, e2) = cleanup_loop-Loses t fs (pop_frame t s) one.0 e1 in
    (
      Loses-trans (λ w. in_blocks w f.blocks) (λ w. in_frames w fs) s (pop_frame t s)
          (cleanup_loop t (f ∷ fs) s) one rest,
      e2,
    )

-- In a well-formed table `jni_refs_leave_native` removes the references in the slots of the thread's frames
-- up to and including the first native boundary, and no other reference.
pub leave_native-removes :
    (t : ℕ) (s : Refs)
    → WellFormed s
    → WellFormed (leave_native t s)
      × ((w : ℕ)
          → find w (leave_native t s)
            ≡ (if in_frames w (left (s.frames t)) then none else find w s))
unfolding leave_native
leave_native-removes t s h = leave_loop-Loses t (s.frames t) s h refl

-- In a well-formed table the first loop of `jni_refs_cleanup` removes the references in the slots of all
-- the thread's frames, and no other reference, and leaves the thread no frame.
pub cleanup-removes :
    (t : ℕ) (s : Refs)
    → WellFormed s
    → (WellFormed (cleanup_frames t s)
        × ((w : ℕ)
            → find w (cleanup_frames t s) ≡ (if in_frames w (s.frames t) then none else find w s)))
      × ((cleanup_frames t s).frames t ≡ [])
unfolding cleanup_frames
cleanup-removes t s h = cleanup_loop-Loses t (s.frames t) s h refl
