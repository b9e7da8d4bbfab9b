-- ===== src/Cocos/TextureSize/Sizes.antt =====
-- The sizes that bridges/cocos2dx/texture_size.c computes and reports.
use vita_arc.Base.{ℕ, zero, suc, ◌+◌, ◌≡◌, inl, inr, Bool, true, false, not, ◌&&◌, none, some}
use vita_arc.Base.{List, ◌==◌, if◌then◌else◌, arith, refl, none≢some, ap, sym, ◌∙◌, Option-cases}
use mathlib.Core.Option.{some-injective}
use vita_arc.Cocos.TextureSize.Defs.{
  half, small_size, source_size, record_ok, record_offset, be16, has_at,
}
use vita_arc.Base.Text.{codes}

-- A size after a number of halvings, rounded up.
unfoldable pub halved : ℕ → ℕ → ℕ
halved zero n = n
halved (suc k) n = halved k (half n)

checks :
    (sw sh pw ph rw' rh' w h : ℕ)
    → (w == pw && (h == ph && (rw' == pw && (rh' == ph && not (sw == pw && sh == ph))))) ≡ true
    → ((w ≡ pw) × (h ≡ ph)) × ((sw ≡ pw) × (sh ≡ ph) → ⊥)
checks sw sh pw ph rw' rh' w h e = ground arith

record_ok-packed :
    (image : List ℕ) (at pw ph : ℕ)
    → record_ok image at pw ph ≡ true
    → (small_size (some (be16 image (at + 4))) (some (be16 image (at + 6))) ≡ some (pw, ph))
      × ((be16 image (at + 4) ≡ pw) × (be16 image (at + 6) ≡ ph) → ⊥)
unfolding record_ok
record_ok-packed image at pw ph e =
    elim (Option-cases (small_size (some (be16 image (at + 4))) (some (be16 image (at + 6))))) [
      | inl g ↦ cc
      | inr ((w, h), g) ↦
          let (same, other) =
            checks (be16 image (at + 4)) (be16 image (at + 6)) pw ph (be16 image (at + 8))
              (be16 image (at + 10)) w h (sym (rw (record_ok, g) refl) ∙ e) in
          (rw g (rw same.0 (rw same.1 refl)), other)
    ]

report :
    (magic ok : Bool) (r s : ℕ × ℕ)
    → (if not magic then none else if not ok then none else some r) ≡ some s
    → (ok ≡ true) × ((r.0 ≡ s.0) × (r.1 ≡ s.1))
report false ok r s e = cc
report true false r s e = cc
report true true r s e =
    (refl, (ap (λ t. t.0) (some-injective r s e), ap (λ t. t.1) (some-injective r s e)))

source_size-record :
    (given : Bool) (image : List ℕ) (length pw ph w h : ℕ)
    → source_size given image length pw ph ≡ some (w, h)
    → (at : ℕ) × ((record_ok image at pw ph ≡ true)
        × ((be16 image (at + 4) ≡ w) × (be16 image (at + 6) ≡ h)))
unfolding source_size
source_size-record false image length pw ph w h e = cc
source_size-record true image length pw ph w h e =
    elim (Option-cases (record_offset image length pw ph)) [
      | inl f ↦ absurd (none≢some (w, h) (sym (rw (source_size, f) refl) ∙ e))
      | inr (at, f) ↦ (
        at,
        report (has_at image at (codes "VTX1") 4) (record_ok image at pw ph)
            (be16 image (at + 4), be16 image (at + 6)) (w, h) (sym (rw (source_size, f) refl) ∙ e),
      )
    ]

-- A source size that is reported reduces to the packed size and is not that size.
source_size-packed :
    (given : Bool) (image : List ℕ) (length pw ph w h : ℕ)
    → source_size given image length pw ph ≡ some (w, h)
    → (small_size (some w) (some h) ≡ some (pw, ph)) × ((w ≡ pw) × (h ≡ ph) → ⊥)
source_size-packed given image length pw ph w h e =
    let (at, (f, (k, l))) = source_size-record given image length pw ph w h e in
    let (p, q) = record_ok-packed image at pw ph f in
    (rw (sym k) (rw (sym l) p), λ c. q (k ∙ c.0, l ∙ c.1))
