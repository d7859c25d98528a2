-- ===== src/Words/Masks.antt =====
-- `x & mask` for the masks that `memalign` uses, as arithmetic.
use Prim.Native.Nat.{bit_and, min, digits, bit_and-bitwise}
use mathlib.Core.Path.{subst}
use native.Mathlib.Nat.{div-lt_iff_lt-mul, mod-eq_of_lt, mul-sub}
use nuaf.Prelude.{ℕ, zero, suc, ◌+◌, ◌-◌, ◌*◌, ◌/◌, ◌%◌, ◌^◌, ◌≤◌, ◌<◌, ◌≡◌, refl, ap, ◌∙◌, arith}
use nuaf.Prelude.Powers.{two_pow-suc, two_pow-pos}

-- The recursion on binary digits behind the native operation, and that its fuel does not matter.
abbrev both_digits : ℕ → ℕ → ℕ → ℕ
both_digits fuel a b = digits (λ y. 0) min fuel a b

both_digits_enough :
    (fuel more a b : ℕ) → a ≤ fuel → a ≤ more → both_digits fuel a b ≡ both_digits more a b
both_digits_enough zero zero a b h j = refl
both_digits_enough (suc fuel) zero zero b h j = refl
both_digits_enough zero (suc more) zero b h j = refl
both_digits_enough (suc fuel) (suc more) zero b h j = refl
both_digits_enough (suc fuel) (suc more) (suc a) b h j =
    omega (arith, both_digits_enough fuel more (suc a / 2) (b / 2) (omega arith) (omega arith))
both_digits_enough (suc fuel) zero (suc a) b h j = absurd (omega arith)
both_digits_enough zero (suc more) (suc a) b h j = absurd (omega arith)

-- The lowest digit and the rest.
pub and_digit : (a b : ℕ) → bit_and a b ≡ bit_and (a / 2) (b / 2) * 2 + min (a % 2) (b % 2)
and_digit zero b = omega (arith, bit_and-bitwise 0 b, bit_and-bitwise 0 (b / 2))
and_digit (suc a) b = omega (
  arith,
  bit_and-bitwise (suc a) b,
  bit_and-bitwise (suc a / 2) (b / 2),
  both_digits_enough a (suc a / 2) (suc a / 2) (b / 2) (omega arith) (omega arith),
)

and_zero_below : (fuel a : ℕ) → a ≤ fuel → bit_and a 0 ≡ 0
and_zero_below fuel zero h = refl
and_zero_below zero (suc a) h = absurd (omega arith)
and_zero_below (suc fuel) (suc a) h =
    omega (arith, and_digit (suc a) 0, and_zero_below fuel (suc a / 2) (omega arith))

pub and_zero : (a : ℕ) → bit_and a 0 ≡ 0
and_zero a = and_zero_below a a (omega arith)

mul-two_pow-suc : (q k : ℕ) → q * 2 ^ suc k ≡ 2 * (q * 2 ^ k)
mul-two_pow-suc q k = omega (arith, ap (λ t. q * t) (two_pow-suc k))

-- Under a mask of `k` ones only the `k` low digits are left.
and_ones : (k q r : ℕ) → r < 2 ^ k → bit_and (q * 2 ^ k + r) (2 ^ k - 1) ≡ r
and_ones zero q r fits = rw and_zero (omega arith)
and_ones (suc k) q r fits = ground (
  arith,
  and_digit (q * 2 ^ suc k + r) (2 ^ suc k - 1),
  mul-two_pow-suc q k,
  two_pow-suc k,
  two_pow-pos k,
  and_ones k q (r / 2) (omega (arith, two_pow-suc k)),
)

pub and_low : (k a : ℕ) → bit_and a (2 ^ k - 1) ≡ a % 2 ^ k
and_low k a = ground (arith, two_pow-pos k, and_ones k (a / 2 ^ k) (a % 2 ^ k))

-- A mask above the `k` low digits clears them.
and_above : (k c q r : ℕ) → r < 2 ^ k → bit_and (q * 2 ^ k + r) (c * 2 ^ k) ≡ bit_and q c * 2 ^ k
and_above zero c q r fits =
    let e : q * 2 ^ 0 + r ≡ q = omega arith in
    let f : c * 2 ^ 0 ≡ c = omega arith in rw (e, f) (omega arith)
and_above (suc k) c q r fits = ground (
  arith,
  and_digit (q * 2 ^ suc k + r) (c * 2 ^ suc k),
  mul-two_pow-suc q k,
  mul-two_pow-suc c k,
  mul-two_pow-suc (bit_and q c) k,
  and_above k c q (r / 2) (omega (arith, two_pow-suc k)),
)

two_pow-add : (k m : ℕ) → 2 ^ (k + m) ≡ 2 ^ m * 2 ^ k
two_pow-add zero m = let e : 0 + m ≡ m = omega arith in omega (arith, ap (λ t. 2 ^ t) e)
two_pow-add (suc k) m =
    let e : suc k + m ≡ suc (k + m) = omega arith in
    ap (λ t. 2 ^ t) e
    ∙ omega (arith, two_pow-suc (k + m), two_pow-add k m, mul-two_pow-suc (2 ^ m) k)

-- A mask of all but the `k` low digits of `k + m` rounds down to a multiple of `2 ^ k`.
and_high : (k m x : ℕ) → x < 2 ^ (k + m) → bit_and x (2 ^ (k + m) - 2 ^ k) ≡ x - x % 2 ^ k
and_high k m x fits =
    let pos = two_pow-pos k in
    let split : x ≡ (x / 2 ^ k) * 2 ^ k + x % 2 ^ k = ground (arith, pos) in
    let low : x % 2 ^ k < 2 ^ k = ground (arith, pos) in
    let mask : 2 ^ (k + m) - 2 ^ k ≡ (2 ^ m - 1) * 2 ^ k =
      grind (arith, two_pow-add k m, two_pow-pos m, mul-sub (2 ^ k) (2 ^ m) 1) in
    let small : x / 2 ^ k < 2 ^ m =
      (div-lt_iff_lt-mul pos).1 (subst (λ t. x < t) (two_pow-add k m) fits) in
    let kept : bit_and (x / 2 ^ k) (2 ^ m - 1) ≡ x / 2 ^ k =
      and_low m (x / 2 ^ k) ∙ mod-eq_of_lt small in
    let cleared = and_above k (2 ^ m - 1) (x / 2 ^ k) (x % 2 ^ k) low in
    ap (λ t. bit_and t (2 ^ (k + m) - 2 ^ k)) split
    ∙ ap (λ t. bit_and (x / 2 ^ k * 2 ^ k + x % 2 ^ k) t) mask
    ∙ cleared
    ∙ ap (λ t. t * 2 ^ k) kept
    ∙ omega arith

-- `x & ~(2 ^ k - 1)` on size_t.
pub and_multiple : (k x : ℕ) → k ≤ 64 → x < 2 ^ 64 → bit_and x (2 ^ 64 - 2 ^ k) ≡ x - x % 2 ^ k
and_multiple k x le fits =
    let whole : k + (64 - k) ≡ 64 = omega arith in
    subst (λ w. x < 2 ^ w → bit_and x (2 ^ w - 2 ^ k) ≡ x - x % 2 ^ k) whole (and_high k (64 - k) x)
      fits
