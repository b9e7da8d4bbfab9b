-- ===== src/Libc/Keyed.antt =====
-- Linked lists whose entries are found by a key, as the C registries search them: the first match.
use vita_arc.Base.{ℕ, ◌≡◌, Option, none, some, List, [], ◌∷◌, ◌==◌, if◌then◌else◌, arith}

-- The entry under a change.
abbrev pub map_entry {ℓ} : {A : Type ℓ} → (A → A) → Option A → Option A
map_entry f none = none
map_entry f (some l) = some (f l)

module _ {ℓ} {A : Type ℓ} (key : A → ℕ) where
  unfoldable pub find : ℕ → List A → Option A
  find g [] = none
  find g (l ∷ ls) = if key l == g then some l else find g ls

  unfoldable pub update : ℕ → (A → A) → List A → List A
  update g f [] = []
  update g f (l ∷ ls) = if key l == g then f l ∷ ls else l ∷ update g f ls

  unfoldable pub unlink : ℕ → List A → List A
  unlink g [] = []
  unlink g (l ∷ ls) = if key l == g then ls else l ∷ unlink g ls

  -- Each key has at most one entry.
  abbrev pub Distinct : List A → Type ℓ
  Distinct [] = Unit
  Distinct (l ∷ ls) = (find (key l) ls ≡ none) × Distinct ls

  pub find-update :
      (g j : ℕ) (f : A → A) (ls : List A)
      → ((l : A) → key (f l) ≡ key l)
      → find j (update g f ls) ≡ (if g == j then map_entry f (find j ls) else find j ls)
  unfolding find update
  find-update g j f [] k = ground arith
  find-update g j f (l ∷ ls) k = ground (arith, k l, find-update g j f ls k)

  pub update-Distinct :
      (g : ℕ) (f : A → A) (ls : List A)
      → ((l : A) → key (f l) ≡ key l)
      → Distinct ls
      → Distinct (update g f ls)
  unfolding find update
  update-Distinct g f [] k d = tt
  update-Distinct g f (l ∷ ls) k d =
      ground (arith, k l, find-update g (key l) f ls k, update-Distinct g f ls k)

  pub find-unlink :
      (g j : ℕ) (ls : List A)
      → Distinct ls
      → find j (unlink g ls) ≡ (if g == j then none else find j ls)
  unfolding find unlink
  find-unlink g j [] d = ground arith
  find-unlink g j (l ∷ ls) d = ground (arith, find-unlink g j ls d.1)

  pub unlink-Distinct : (g : ℕ) (ls : List A) → Distinct ls → Distinct (unlink g ls)
  unfolding find unlink
  unlink-Distinct g [] d = tt
  unlink-Distinct g (l ∷ ls) d =
      ground (arith, find-unlink g (key l) ls d.1, unlink-Distinct g ls d.1)

  pub key-find : (g : ℕ) (ls : List A) (l : A) → find g ls ≡ some l → key l ≡ g
  unfolding find
  key-find g [] l h = cc
  key-find g (x ∷ ls) l h = ground (arith, key-find g ls l)
