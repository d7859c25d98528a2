-- ===== src/Wrapper/Alignment.antt =====
-- The arithmetic of `memalign` on addresses: its test of the alignment and its rounding.
use Prim.Native.Nat.{bit_and}
use native.Mathlib.Nat.{mul-mod_left}
use native.Mathlib.Decide.{dec_le}
use mathlib.Core.Logic.{◌↔◌}
use nuaf.Prelude.{ℕ, ◌+◌, ◌-◌, ◌*◌, ◌/◌, ◌%◌, ◌^◌, ◌≤◌, ◌<◌, ◌≡◌, sym, ap, ◌∙◌, false, arith, ◌==◌}
use nuaf.Prelude.Powers.{two_pow-pos, two_pow_mono}
use nuaf.Words.{add_size, sub_size}
use nuaf.Words.Masks.{and_low, and_multiple}
use nuaf.Words.PowerTest.{power_of_none, none_of_power}
use nuaf.Wrapper.{is_bad_alignment}

module _ (e : ℕ) (fits : 2 ^ e ≤ 1024) where
  exponent : e ≤ 64
  exponent = elim (dec_le e 64) [
    | yes p ↦ p
    | no p ↦ absurd (omega (arith, two_pow_mono 65 e (omega arith)))
  ]

  minus_one : sub_size (2 ^ e) 1 ≡ 2 ^ e - 1
  minus_one = omega (arith, two_pow-pos e)

  -- The test for a power of two.
  pub good_alignment : is_bad_alignment (2 ^ e) ≡ false
  good_alignment = rw (minus_one, none_of_power e) (ground (arith, two_pow-pos e))

  -- No pointer to an object passes for aligned at once.
  pub never_lucky : (x : ℕ) → 1024 ≤ x → (bit_and x (sub_size (2 ^ e) 1) == x) ≡ false
  never_lucky x far =
      let low : x % 2 ^ e < 2 ^ e = ground (arith, two_pow-pos e) in
      let m = and_low e x in rw (minus_one, m) (ground arith)

  abbrev pub up : ℕ → ℕ
  up p = bit_and (sub_size (add_size p (2 ^ e)) 1) (2 ^ 64 - 2 ^ e)

  pub up_lem : (p : ℕ) → p < 2 ^ 63 → (p ≤ up p) × (up p < p + 2 ^ e) × (up p % 2 ^ e ≡ 0)
  up_lem p small =
      let x = p + 2 ^ e - 1 in
      let pos = two_pow-pos e in
      let sum : sub_size (add_size p (2 ^ e)) 1 ≡ x = omega arith in
      let masked = and_multiple e x exponent (omega arith) in
      let low : x % 2 ^ e < 2 ^ e = ground arith in
      let multiple : x - x % 2 ^ e ≡ x / 2 ^ e * 2 ^ e = ground arith in
      rw (sum, masked)
        (omega arith, omega arith, ap (λ t. t % 2 ^ e) multiple ∙ mul-mod_left (x / 2 ^ e) (2 ^ e))

-- The test that memalign and posix_memalign begin with passes exactly the powers of two.
pub is_bad_alignment_lem :
    (alignment : ℕ)
    → alignment < 2 ^ 64
    → (is_bad_alignment alignment ≡ false) ↔ ((e : ℕ) × (alignment ≡ 2 ^ e))
is_bad_alignment_lem alignment word = (
  λ passed.
      let positive : 0 < alignment = ground arith in
      let less : sub_size alignment 1 ≡ alignment - 1 = omega arith in
      let none : bit_and alignment (sub_size alignment 1) ≡ 0 = ground arith in
      power_of_none alignment positive (ap (λ t. bit_and alignment t) (sym less) ∙ none),
  λ power.
      let (e, is) = power in
      let pos = two_pow-pos e in
      let less : sub_size (2 ^ e) 1 ≡ 2 ^ e - 1 = omega arith in
      rw is (rw (less, none_of_power e) (ground arith)),
)
