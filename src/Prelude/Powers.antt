-- ===== src/Prelude/Powers.antt =====
-- Powers of two at a variable exponent, and a split on a number below eight.
use Prim.Native.Nat.{ℕ, zero, suc, ◌*◌, ◌^◌, ◌≤◌, ◌<◌}
use mathlib.Core.Path.{◌≡◌}
use native.Mathlib.Nat.{pow-suc, le_refl}
use native.Mathlib.Decide.{dec_le}
use native.Mathlib.Omega.{arith}

pub two_pow-suc : (n : ℕ) → 2 ^ suc n ≡ 2 * 2 ^ n
two_pow-suc n = omega (arith, pow-suc 2 n)

pub two_pow-pos : (n : ℕ) → 0 < 2 ^ n
two_pow-pos zero = omega arith
two_pow-pos (suc n) = omega (arith, two_pow-suc n, two_pow-pos n)

pub two_pow_mono : (a b : ℕ) → a ≤ b → 2 ^ a ≤ 2 ^ b
two_pow_mono a zero h = rw (show a h) (omega arith)
  where
    show : (a : ℕ) → a ≤ 0 → a ≡ 0
    show a h = omega arith
two_pow_mono a (suc b) h = elim (dec_le a b) [
  | yes p ↦ omega (arith, two_pow-suc b, two_pow_mono a b p)
  | no p ↦ let e : a ≡ suc b = omega arith in rw e (le_refl (2 ^ suc b))
]

-- A statement about every number below eight is eight statements.
pub below_eight {ℓ} :
    (P : ℕ → Type ℓ) → P 0 → P 1 → P 2 → P 3 → P 4 → P 5 → P 6 → P 7 → (n : ℕ) → n < 8 → P n
below_eight P a b c d e f g h zero lt = a
below_eight P a b c d e f g h (suc zero) lt = b
below_eight P a b c d e f g h (suc (suc zero)) lt = c
below_eight P a b c d e f g h (suc (suc (suc zero))) lt = d
below_eight P a b c d e f g h (suc (suc (suc (suc zero)))) lt = e
below_eight P a b c d e f g h (suc (suc (suc (suc (suc zero))))) lt = f
below_eight P a b c d e f g h (suc (suc (suc (suc (suc (suc zero)))))) lt = g
below_eight P a b c d e f g h (suc (suc (suc (suc (suc (suc (suc zero))))))) lt = h
below_eight P a b c d e f g h (suc (suc (suc (suc (suc (suc (suc (suc n)))))))) lt =
    absurd (omega arith)
