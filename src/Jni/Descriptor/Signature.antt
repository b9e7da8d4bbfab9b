-- ===== src/Jni/Descriptor/Signature.antt =====
-- That the parser of method descriptors reads what the grammar prints.
use vita_arc.Base.{ℕ, zero, suc, ◌+◌, ◌≡◌, ◌≤◌, ◌<◌, inl, inr, true, false, some}
use vita_arc.Base.{List, [], ◌∷◌, ◌++◌, ltb, ◌==◌, All, length, map, arith, refl, ◌∙◌, ap}
use vita_arc.Base.{Option-cases}
use vita_arc.Jni.Descriptor.Defs.{
  head, parse_type, Sig, slots_of, arguments, no_sig, return_type, sig_parse, parse_after, brackets,
  simple_type,
}
use vita_arc.Jni.Descriptor.Print.{
  JavaType, IsJavaType, print_type, letter_of, parse_type-print, print_type-head,
}
use native.Mathlib.Decide.{ℕ_discrete}
use native.Mathlib.Nat.{suc-add, zero-add}
use mathlib.Core.List.{append-nil, append_assoc}

abbrev print_types : List JavaType → List ℕ → List ℕ
print_types [] rest = rest
print_types (t ∷ ts) rest = print_type t (print_types ts rest)

abbrev total_slots : List JavaType → ℕ
total_slots [] = 0
total_slots (t ∷ ts) = slots_of (letter_of t) + total_slots ts

abbrev add_argument : ℕ → Sig → Sig
add_argument c sig = record sig {
  args = sig.args ++ (c ∷ []);
  argc = sig.argc + 1;
  slots = sig.slots + slots_of c;
}

abbrev with_arguments : List JavaType → Sig → Sig
with_arguments [] sig = sig
with_arguments (t ∷ ts) sig = with_arguments ts (record sig {
  args = sig.args ++ (letter_of t ∷ []);
  argc = sig.argc + 1;
  slots = sig.slots + slots_of (letter_of t);
})

below_not_eq : (m n : ℕ) → m < n → (m == n) ≡ false
below_not_eq m n h = ground arith

le_not_ltb : (m n : ℕ) → m ≤ n → ltb n m ≡ false
le_not_ltb m n h = ground arith

-- A round of the loop that reads an argument.
arguments-step :
    (fuel : ℕ) (text text' : List ℕ) (sig : Sig) (c : ℕ)
    → (head text == 41) ≡ false
    → sig.argc < 255
    → parse_type text false ≡ some (c, text')
    → sig.slots + slots_of c ≤ 255
    → arguments (suc fuel) text sig ≡ arguments fuel text' (add_argument c sig)
unfolding arguments
arguments-step fuel text text' sig c h a e b =
    rw (arguments, h)
      (rw e
        (rw (below_not_eq sig.argc 255 a) (rw (le_not_ltb (sig.slots + slots_of c) 255 b) refl)))

arguments-print :
    (fuel : ℕ) (ts : List JavaType) (rest : List ℕ) (sig : Sig)
    → All IsJavaType ts
    → length ts < fuel
    → sig.argc + length ts ≤ 255
    → sig.slots + total_slots ts ≤ 255
    → arguments fuel (print_types ts (41 ∷ rest)) sig ≡ some (with_arguments ts sig, 41 ∷ rest)
unfolding arguments
arguments-print zero ts rest sig h l a b = absurd (omega arith)
arguments-print (suc fuel) [] rest sig h l a b = refl
arguments-print (suc fuel) (t ∷ ts) rest sig h l a b =
    arguments-step fuel (print_types (t ∷ ts) (41 ∷ rest)) (print_types ts (41 ∷ rest)) sig
      (letter_of t) (print_type-head t (print_types ts (41 ∷ rest)) h.0) (omega arith)
      (parse_type-print t (print_types ts (41 ∷ rest)) false h.0) (omega arith)
    ∙ arguments-print fuel ts rest (add_argument (letter_of t) sig) h.1 (omega arith) (omega arith)
        (omega arith)

with_arguments-fields :
    (ts : List JavaType) (sig : Sig)
    → with_arguments ts sig ≡ record sig {
      args = sig.args ++ map letter_of ts;
      argc = sig.argc + length ts;
      slots = sig.slots + total_slots ts;
    }
with_arguments-fields [] sig = ground (arith, append-nil sig.args)
with_arguments-fields (t ∷ ts) sig = ground (
  arith,
  with_arguments-fields ts (record sig {
    args = sig.args ++ (letter_of t ∷ []);
    argc = sig.argc + 1;
    slots = sig.slots + slots_of (letter_of t);
  }),
  append_assoc sig.args (letter_of t ∷ []) (map letter_of ts),
)

-- What a method returns: nothing, or a type.
pub data Return : Type 0 where
  void : Return
  type : JavaType → Return

abbrev IsReturn : Return → Type 0
IsReturn void = Unit
IsReturn (type t) = IsJavaType t

abbrev print_return : Return → List ℕ
print_return void = 86 ∷ 0 ∷ []
print_return (type t) = print_type t (0 ∷ [])

abbrev letter_of_return : Return → ℕ
letter_of_return void = 86
letter_of_return (type t) = letter_of t

return_type-print :
    (r : Return) (sig : Sig)
    → IsReturn r
    → return_type sig (41 ∷ print_return r) ≡ some (record sig { ret = letter_of_return r })
unfolding return_type parse_type parse_after brackets simple_type
return_type-print void sig h = refl
return_type-print (type t) sig h = rw (return_type, parse_type-print t (0 ∷ []) true h) refl

-- The descriptor of a method, with the NUL that ends it.
abbrev pub print_method : List JavaType → Return → List ℕ
print_method ts r = 40 ∷ print_types ts (41 ∷ print_return r)

from_no_sig :
    (ts : List JavaType)
    → with_arguments ts no_sig
      ≡ record { args = map letter_of ts; argc = length ts; slots = total_slots ts; ret = 0 }
from_no_sig ts = rw (with_arguments-fields ts no_sig) (rw zero-add (rw zero-add refl))

-- The parser of method descriptors reads the descriptor of every method of 255 arguments at most in 255
-- slots at most: it reports the letters of its arguments in order, their number, their slots and the letter
-- of what the method returns.
pub sig_parse-print :
    (ts : List JavaType) (r : Return)
    → All IsJavaType ts
    → IsReturn r
    → length ts ≤ 255
    → total_slots ts ≤ 255
    → sig_parse (some (print_method ts r)) true
      ≡ some (record {
        args = map letter_of ts;
        argc = length ts;
        slots = total_slots ts;
        ret = letter_of_return r;
      })
unfolding sig_parse
sig_parse-print ts r h k a b =
    rw
      (
        sig_parse,
        arguments-print 256 ts (print_return r) no_sig h (omega arith) (omega arith) (omega arith),
      )
      (return_type-print r (with_arguments ts no_sig) k
        ∙ ap (λ (s : Sig). some (record s { ret = letter_of_return r })) (from_no_sig ts))

-- More fuel than 256 rounds changes nothing: the loop ends after 255 arguments.
pub arguments-fuel :
    (fuel more : ℕ) (text : List ℕ) (sig : Sig)
    → 256 ≤ fuel + sig.argc
    → sig.argc ≤ 255
    → arguments (fuel + more) text sig ≡ arguments fuel text sig
unfolding arguments
arguments-fuel zero more text sig h b = absurd (omega arith)
arguments-fuel (suc fuel) more text sig h b =
    rw suc-add (elim (Option-cases (parse_type text false)) [
      | inl e ↦ rw e (ground arith)
      | inr ((c, text'), e) ↦ rw e (elim (ℕ_discrete sig.argc 255) [
        | yes k ↦ rw k (ground arith)
        | no ne ↦
            ground (
              arith,
              arguments-fuel fuel more text' (add_argument c sig) (omega arith) (omega arith),
            )
      ])
    ])
