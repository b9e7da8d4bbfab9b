-- ===== src/Base/Text.antt =====
-- C strings in a buffer of bytes.
use Prim.Native.Char.{code}
use Prim.Native.String.{String}
use vita_arc.Base.Tests.{◌==◌, if◌then◌else◌}
use vita_arc.Base.Lists.{drop, get_elem?}
use native.Mathlib.Omega.{arith}
use native.Mathlib.Decide.{ℕ_discrete}
use native.Mathlib.Nat.{zero-add, suc-add}
use mathlib.Core.Path.{◌≡◌, refl}
use mathlib.Core.Option.{some}
use Prim.Native.Nat.{ℕ, zero, suc, ◌+◌, ◌<◌}
use mathlib.Core.Bool.{Bool, true, false, ◌&&◌, ◌||◌}
use mathlib.Core.List.{List, [], ◌∷◌}

-- The bytes of an ASCII literal.
abbrev pub codes : String → List ℕ
codes String.[] = []
codes (String.◌∷◌ c s) = code c ∷ codes s

-- The string that starts at the head of the buffer.
unfoldable pub until_nul : List ℕ → List ℕ
until_nul [] = []
until_nul (b ∷ bs) = if b == 0 then [] else b ∷ until_nul bs

-- `strcmp(a, b) == 0` on strings without their NULs
unfoldable pub bytes_eq : List ℕ → List ℕ → Bool
bytes_eq [] [] = true
bytes_eq [] (b ∷ bs) = false
bytes_eq (a ∷ as') [] = false
bytes_eq (a ∷ as') (b ∷ bs) = a == b && bytes_eq as' bs

-- `memchr(bytes, 0, n) != NULL`
unfoldable pub has_nul : ℕ → List ℕ → Bool
has_nul zero bytes = false
has_nul (suc n) [] = false
has_nul (suc n) (b ∷ bs) = b == 0 || has_nul n bs

pub has_nul_at :
    (n : ℕ) (bytes : List ℕ)
    → has_nul n bytes ≡ true
    → (k : ℕ) × (k < n) × (get_elem? bytes k ≡ some 0)
unfolding has_nul
has_nul_at zero bytes h = cc
has_nul_at (suc n) [] h = cc
has_nul_at (suc n) (b ∷ bs) h = elim (ℕ_discrete b 0) [
  | yes e ↦ (0, omega arith, rw e)
  | no ne ↦ let (k, lt, e) = has_nul_at n bs (ground arith) in (suc k, omega arith, e)
]

pub get_elem?-drop {ℓ} :
    {A : Type ℓ} (m k : ℕ) (xs : List A) → get_elem? (drop m xs) k ≡ get_elem? xs (m + k)
get_elem?-drop zero k xs = rw zero-add
get_elem?-drop (suc m) k [] = refl
get_elem?-drop (suc m) k (x ∷ xs) = rw suc-add (get_elem?-drop m k xs)

pub bytes_eq_refl : (bs : List ℕ) → bytes_eq bs bs ≡ true
unfolding bytes_eq
bytes_eq_refl [] = refl
bytes_eq_refl (b ∷ bs) = ground (arith, bytes_eq_refl bs)

pub bytes_eq_sound : (a b : List ℕ) → bytes_eq a b ≡ true → a ≡ b
unfolding bytes_eq
bytes_eq_sound [] [] h = refl
bytes_eq_sound [] (b ∷ bs) h = cc
bytes_eq_sound (a ∷ as') [] h = cc
bytes_eq_sound (a ∷ as') (b ∷ bs) h = ground (arith, bytes_eq_sound as' bs)
