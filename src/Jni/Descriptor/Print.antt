-- ===== src/Jni/Descriptor/Print.antt =====
-- The grammar of descriptors, and that the parser reads what it prints.
use vita_arc.Base.{ℕ, zero, suc, ◌+◌, ◌≡◌, ◌≤◌, Bool, true, false, not, ◌&&◌, some}
use vita_arc.Base.{List, [], ◌∷◌, ◌++◌, ◌==◌, if◌then◌else◌, All, replicate, arith, refl, ◌∙◌, ap}
use vita_arc.Base.Text.{codes}
use vita_arc.Jni.Descriptor.Defs.{
  strchr, head, brackets, class_name, object_type, simple_type, parse_type, parse_after,
}

-- A field type: primitive types by their letters, a class by its name, and arrays.
pub data Element : Type 0 where
  primitive : ℕ → Element
  class : List ℕ → Element

pub record JavaType : Type 0 where
  pub dimensions : ℕ
  pub element : Element

abbrev is_name_byte : ℕ → Bool
is_name_byte c = not (c == 0) && not (c == 59) && not (strchr (codes ".([)") c)

-- A class name is not empty and has none of the bytes `.`, `(`, `[`, `)`, `;` and NUL.
abbrev IsElement : Element → Type 0
IsElement (primitive c) = (strchr (codes "ZBCSIJFD") c ≡ true) × (c ≡ 0 → ⊥)
IsElement (class []) = ⊥
IsElement (class (c ∷ cs)) = All (λ b. is_name_byte b ≡ true) (c ∷ cs)

abbrev pub IsJavaType : JavaType → Type 0
IsJavaType t = (t.dimensions ≤ 255) × IsElement t.element

-- The descriptor of a type, before a text.
abbrev print_element : Element → List ℕ → List ℕ
print_element (primitive c) rest = c ∷ rest
print_element (class name) rest = 76 ∷ (name ++ (59 ∷ rest))

abbrev pub print_type : JavaType → List ℕ → List ℕ
print_type t rest = replicate t.dimensions 91 ++ print_element t.element rest

abbrev letter_of_element : Element → ℕ
letter_of_element (primitive c) = c
letter_of_element (class name) = 76

-- What the parser reports of a type: `L` for arrays and classes.
abbrev pub letter_of : JavaType → ℕ
letter_of t = if not (t.dimensions == 0) then 76 else letter_of_element t.element

brackets-replicate :
    (n k c : ℕ) (cs : List ℕ)
    → (c == 91) ≡ false
    → brackets (replicate n 91 ++ (c ∷ cs)) k ≡ (k + n, c ∷ cs)
unfolding brackets
brackets-replicate zero k c cs h = ground arith
brackets-replicate (suc n) k c cs h =
    brackets-replicate n (k + 1) c cs h ∙ ap (λ m. (m, c ∷ cs)) (omega arith)

class_name-append :
    (name rest : List ℕ)
    → All (λ b. is_name_byte b ≡ true) name
    → class_name (name ++ (59 ∷ rest)) ≡ some (59 ∷ rest)
unfolding class_name
class_name-append [] rest h = refl
class_name-append (c ∷ cs) rest h = ground (arith, class_name-append cs rest h.1)

object_type-print :
    (c : ℕ) (cs rest : List ℕ)
    → All (λ b. is_name_byte b ≡ true) (c ∷ cs)
    → object_type (c ∷ (cs ++ (59 ∷ rest))) ≡ some rest
unfolding object_type
object_type-print c cs rest h = ground (arith, class_name-append (c ∷ cs) rest h)

simple_type-class :
    (dimensions c : ℕ) (cs rest : List ℕ) (allow_void : Bool)
    → All (λ b. is_name_byte b ≡ true) (c ∷ cs)
    → simple_type 76 dimensions (c ∷ (cs ++ (59 ∷ rest))) allow_void ≡ some rest
unfolding simple_type
simple_type-class dimensions c cs rest allow_void h = object_type-print c cs rest h

simple_type-primitive :
    (dimensions c : ℕ) (rest : List ℕ) (allow_void : Bool)
    → strchr (codes "ZBCSIJFD") c ≡ true
    → (c ≡ 0 → ⊥)
    → (simple_type c dimensions rest allow_void ≡ some rest) × ((c == 91) ≡ false)
unfolding simple_type strchr
simple_type-primitive dimensions c rest allow_void h n = ground arith

parse_type-element :
    (n c : ℕ) (cs rest : List ℕ) (allow_void : Bool)
    → n ≤ 255
    → (c == 91) ≡ false
    → (c ≡ 0 → ⊥)
    → simple_type c n cs allow_void ≡ some rest
    → parse_type (replicate n 91 ++ (c ∷ cs)) allow_void
      ≡ some (if not (n == 0) then 76 else c, rest)
unfolding parse_type parse_after
parse_type-element n c cs rest allow_void h b z e =
    rw (parse_type, brackets-replicate n 0 c cs b) (ground arith)

parse_type-element_of :
    (n : ℕ) (b : Element) (rest : List ℕ) (allow_void : Bool)
    → n ≤ 255
    → IsElement b
    → parse_type (replicate n 91 ++ print_element b rest) allow_void
      ≡ some (if not (n == 0) then 76 else letter_of_element b, rest)
parse_type-element_of n (primitive c) rest allow_void h k =
    let (p, b) = simple_type-primitive n c rest allow_void k.0 k.1 in
    parse_type-element n c rest rest allow_void h b k.1 p
parse_type-element_of n (class []) rest allow_void h k = absurd k
parse_type-element_of n (class (c ∷ cs)) rest allow_void h k =
    parse_type-element n 76 (c ∷ (cs ++ (59 ∷ rest))) rest allow_void h refl (omega arith)
      (simple_type-class n c cs rest allow_void k)

-- The parser of one type reads the descriptor of a type of 255 dimensions at most, whatever follows it, and
-- stops right behind it.
pub parse_type-print :
    (t : JavaType) (rest : List ℕ) (allow_void : Bool)
    → IsJavaType t
    → parse_type (print_type t rest) allow_void ≡ some (letter_of t, rest)
parse_type-print t rest allow_void h =
    parse_type-element_of t.dimensions t.element rest allow_void h.0 h.1

print_element-head :
    (b : Element) (rest : List ℕ) → IsElement b → (head (print_element b rest) == 41) ≡ false
unfolding strchr
print_element-head (primitive c) rest h = ground arith
print_element-head (class name) rest h = refl

print_replicate-head :
    (n : ℕ) (b : Element) (rest : List ℕ)
    → IsElement b
    → (head (replicate n 91 ++ print_element b rest) == 41) ≡ false
print_replicate-head zero b rest h = print_element-head b rest h
print_replicate-head (suc n) b rest h = refl

pub print_type-head :
    (t : JavaType) (rest : List ℕ) → IsJavaType t → (head (print_type t rest) == 41) ≡ false
print_type-head t rest h = print_replicate-head t.dimensions t.element rest h.1
