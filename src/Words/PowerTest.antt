-- ===== src/Words/PowerTest.antt =====
-- `x & (x - 1)` as a test for a power of two.
use Prim.Native.Nat.{bit_and}
use native.Mathlib.Nat.{mod_self}
use native.Mathlib.Decide.{ℕ_discrete}
use nuaf.Prelude.{ℕ, zero, suc, ◌-◌, ◌/◌, ◌%◌, ◌^◌, ◌≤◌, ◌<◌, ◌≡◌, ap, ◌∙◌, arith}
use nuaf.Prelude.Powers.{two_pow-suc}
use nuaf.Words.Masks.{and_digit, and_zero, and_low}

and_self_below : (fuel a : ℕ) → a ≤ fuel → bit_and a a ≡ a
and_self_below zero a h = let z : a ≡ 0 = omega arith in rw z (and_zero 0)
and_self_below (suc fuel) a h = elim (ℕ_discrete a 0) [
  | yes z ↦ rw z (and_zero 0)
  | no nz ↦ omega (arith, and_digit a a, and_self_below fuel (a / 2) (omega arith))
]

-- Only the powers of two have no digit in common with their predecessor.
power_below : (fuel a : ℕ) → a ≤ fuel → 0 < a → bit_and a (a - 1) ≡ 0 → (e : ℕ) × (a ≡ 2 ^ e)
power_below zero a h pos none = absurd (omega arith)
power_below (suc fuel) a h pos none = elim (ℕ_discrete (a % 2) 0) [
  | yes even ↦
      let half : (a - 1) / 2 ≡ a / 2 - 1 = omega arith in
      let rest : bit_and (a / 2) (a / 2 - 1) ≡ 0 =
        omega (arith, and_digit a (a - 1), ap (λ t. bit_and (a / 2) t) half) in
      let (e, is) = power_below fuel (a / 2) (omega arith) (omega arith) rest in
      (suc e, omega (arith, two_pow-suc e))
  | no odd ↦
      let half : (a - 1) / 2 ≡ a / 2 = omega arith in
      let same = ap (λ t. bit_and (a / 2) t) half in
      (0, omega (arith, and_digit a (a - 1), same, and_self_below (a / 2) (a / 2) (omega arith)))
]

pub power_of_none : (a : ℕ) → 0 < a → bit_and a (a - 1) ≡ 0 → (e : ℕ) × (a ≡ 2 ^ e)
power_of_none a pos none = power_below a a (omega arith) pos none

pub none_of_power : (e : ℕ) → bit_and (2 ^ e) (2 ^ e - 1) ≡ 0
none_of_power e = and_low e (2 ^ e) ∙ mod_self (2 ^ e)
