-- ===== src/Base/Bits.antt =====
-- Bit facts about the masks that the program uses.
use Prim.Native.Nat.{
  ℕ, zero, suc, ◌+◌, ◌-◌, ◌*◌, ◌/◌, ◌%◌, ◌^◌, ◌≤◌, ◌<◌, min, bit_and, digits, bit_and-bitwise,
}
use mathlib.Core.Path.{◌≡◌, refl, ap}
use mathlib.Core.WellFounded
use native.Mathlib.Omega.{arith}
use native.Mathlib.Nat.{pow-suc}
use native.Mathlib.Decide.{ℕ_discrete}
use vita_arc.Base.Loops.{lt_wf}

-- Digits of `bit_and`, with fuel for as many halvings as are wanted.
abbrev masked : ℕ → ℕ → ℕ → ℕ
masked n a b = digits (λ b. zero) min n a b

masked_fuel : (m n a b : ℕ) → a ≤ m → a ≤ n → masked m a b ≡ masked n a b
masked_fuel zero zero a b p q = refl
masked_fuel zero (suc n) zero b p q = refl
masked_fuel zero (suc n) (suc a) b p q = absurd (omega arith)
masked_fuel (suc m) zero zero b p q = refl
masked_fuel (suc m) zero (suc a) b p q = absurd (omega arith)
masked_fuel (suc m) (suc n) zero b p q = refl
masked_fuel (suc m) (suc n) (suc a) b p q =
    omega (arith, masked_fuel m n (suc a / 2) (b / 2) (omega arith) (omega arith))

-- The law of the lowest digit.
pub bit_and-halves : (a b : ℕ) → bit_and a b ≡ bit_and (a / 2) (b / 2) * 2 + min (a % 2) (b % 2)
bit_and-halves zero b = omega (arith, bit_and-bitwise 0 b, bit_and-bitwise 0 (b / 2))
bit_and-halves (suc a) b = omega (
  arith,
  bit_and-bitwise (suc a) b,
  bit_and-bitwise (suc a / 2) (b / 2),
  masked_fuel a (suc a / 2) (suc a / 2) (b / 2) (omega arith) (omega arith),
)

pub bit_and_self : (a : ℕ) → bit_and a a ≡ a
bit_and_self a = WellFounded.induction lt_wf {C = λ k. bit_and k k ≡ k} a λ k ih.
    elim (ℕ_discrete k 0) [
      | yes e ↦ rw e (bit_and-bitwise 0 0)
      | no ne ↦ omega (arith, bit_and-halves k k, ih (k / 2) (omega arith))
    ]

-- An odd number keeps its upper bits under this mask.
odd_case : (q : ℕ) → q % 2 ≡ 1 → bit_and q (q - 1) ≡ 0 → q ≡ 1
odd_case q o e =
    omega (arith, bit_and-halves q (q - 1), ap (λ t. bit_and (q / 2) t) same, bit_and_self (q / 2))
  where
    same : (q - 1) / 2 ≡ q / 2
    same = omega arith

even_case : (q : ℕ) → 0 < q → q % 2 ≡ 0 → bit_and q (q - 1) ≡ 0 → bit_and (q / 2) (q / 2 - 1) ≡ 0
even_case q h o e = omega (arith, bit_and-halves q (q - 1), ap (λ t. bit_and (q / 2) t) same)
  where
    same : (q - 1) / 2 ≡ q / 2 - 1
    same = omega arith

double : (q k : ℕ) → q % 2 ≡ 0 → q / 2 ≡ 2 ^ k → q ≡ 2 ^ suc k
double q k o e = omega (arith, pow-suc 2 k)

-- `p & (p - 1)` clears the lowest set bit, so it is 0 at powers of two only.
pub power_of_two : (p : ℕ) → 0 < p → bit_and p (p - 1) ≡ 0 → (k : ℕ) × (p ≡ 2 ^ k)
power_of_two p =
    WellFounded.induction lt_wf {C = λ p. 0 < p → bit_and p (p - 1) ≡ 0 → (k : ℕ) × (p ≡ 2 ^ k)} p
      λ q ih h e. elim (ℕ_discrete (q % 2) 0) [
        | yes o ↦
            let (k, f) = ih (q / 2) (omega arith) (omega arith) (even_case q h o e) in
            (suc k, double q k o f)
        | no o ↦ (0, odd_case q (omega arith) e)
      ]
