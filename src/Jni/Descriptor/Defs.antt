-- ===== src/Jni/Descriptor/Defs.antt =====
-- The parser of bridges/jni/descriptor.c. A text is the bytes that follow the pointer in a string that a
-- NUL ends; past the NUL the model's text is empty, and the parser reads no further than the NUL.
use vita_arc.Base.{ℕ, zero, suc, ◌+◌, Bool, true, false, not, ◌&&◌, ◌||◌, Option, none, some}
use vita_arc.Base.{List, [], ◌∷◌, ◌++◌, ltb, drop, ◌==◌, if◌then◌else◌}
use vita_arc.Base.Text.{codes}

-- `strchr(set, c)` finds `c`; it finds the NUL that ends the set too.
unfoldable pub strchr : List ℕ → ℕ → Bool
strchr [] c = c == 0
strchr (x ∷ xs) c = x == c || strchr xs c

-- `*text`: the head of the text, 0 at its end.
abbrev pub head : List ℕ → ℕ
head [] = 0
head (c ∷ cs) = c

-- The loop that counts the brackets, with the text after them.
unfoldable pub brackets : List ℕ → ℕ → ℕ × List ℕ
brackets [] dimensions = (dimensions, [])
brackets (c ∷ cs) dimensions =
    if c == 91 then brackets cs (dimensions + 1) else (dimensions, c ∷ cs)

-- The loop over a class name: none when it meets one of `.([)`, else the text where it stops.
unfoldable pub class_name : List ℕ → Option (List ℕ)
unfolding strchr
class_name [] = some []
class_name (c ∷ cs) =
    let rest = class_name cs in
    if not (c == 0) && not (c == 59)
    then (if strchr (codes ".([)") c then none else rest)
    else some (c ∷ cs)

-- The case 'L' on the text after the letter: the text after the semicolon.
unfoldable pub object_type : List ℕ → Option (List ℕ)
unfolding class_name
object_type text = elim (class_name text) [
  | none ↦ none
  | some [] ↦ none
  | some (c ∷ rest) ↦ if head text == 59 || not (c == 59) then none else some rest
]

-- The switch, on the letter and the text after it.
unfoldable pub simple_type : ℕ → ℕ → List ℕ → Bool → Option (List ℕ)
unfolding object_type strchr
simple_type letter dimensions text allow_void =
    if letter == 76
    then object_type text
    else if letter == 86
    then (if not allow_void then none else if not (dimensions == 0) then none else some text)
    else if not (strchr (codes "ZBCSIJFD") letter)
    then none
    else some text

-- `__parse_type` after the brackets.
unfoldable pub parse_after : ℕ → List ℕ → Bool → Option (ℕ × List ℕ)
unfolding simple_type
parse_after dimensions [] allow_void = none
parse_after dimensions (c ∷ rest) allow_void =
    if ltb 255 dimensions || c == 0 then none else elim (simple_type c dimensions rest allow_void) [
      | none ↦ none
      | some rest' ↦ some (if not (dimensions == 0) then 76 else c, rest')
    ]

-- `__parse_type`: the type's letter and the text after it.
unfoldable pub parse_type : List ℕ → Bool → Option (ℕ × List ℕ)
unfolding brackets parse_after
parse_type text allow_void =
    let (dimensions, rest) = brackets text 0 in parse_after dimensions rest allow_void

-- `jni_sig_t`; `argc` is the number of `args`.
pub record Sig : Type 0 where
  pub args : List ℕ
  pub argc : ℕ
  pub slots : ℕ
  pub ret : ℕ

abbrev pub slots_of : ℕ → ℕ
slots_of c = if c == 74 || c == 68 then 2 else 1

-- The loop of `jni_sig_parse` over the arguments, with the text at the closing parenthesis. Each round reads
-- a byte at least.
unfoldable pub arguments : ℕ → List ℕ → Sig → Option (Sig × List ℕ)
unfolding parse_type
arguments zero text sig = none
arguments (suc fuel) text sig =
    let rest = λ (c : ℕ) (text' : List ℕ). arguments fuel text' (record sig {
      args = sig.args ++ (c ∷ []);
      argc = sig.argc + 1;
      slots = sig.slots + slots_of c;
    }) in
    if head text == 41
    then some (sig, text)
    else if sig.argc == 255
    then none
    else elim (parse_type text false) [
      | none ↦ none
      | some (c, text') ↦ if ltb 255 (sig.slots + slots_of c) then none else rest c text'
    ]

abbrev pub no_sig : Sig
no_sig = record { args = []; argc = 0; slots = 0; ret = 0 }

-- The end of `jni_sig_parse`, from the closing parenthesis on.
unfoldable pub return_type : Sig → List ℕ → Option Sig
unfolding parse_type
return_type sig [] = none
return_type sig (c ∷ text) = elim (parse_type text true) [
  | none ↦ none
  | some (r, rest) ↦ if head rest == 0 then some (record sig { ret = r }) else none
]

-- `jni_sig_parse`, `none` for the text NULL; `given` tells whether there is a place for the result. The loop
-- makes 256 rounds at most.
unfoldable pub sig_parse : Option (List ℕ) → Bool → Option Sig
unfolding arguments return_type
sig_parse none given = none
sig_parse (some text) given =
    if not given
    then none
    else if not (head text == 40)
    then none
    else elim (arguments 256 (drop 1 text) no_sig) [
      | none ↦ none
      | some (sig, rest) ↦ return_type sig rest
    ]

-- `jni_type_parse`
unfoldable pub type_parse : Option (List ℕ) → Bool → Option ℕ
unfolding parse_type
type_parse none given = none
type_parse (some text) given = if not given then none else elim (parse_type text false) [
  | none ↦ none
  | some (c, rest) ↦ if head rest == 0 then some c else none
]
