-- ===== src/Words.antt =====
-- The 64-bit arithmetic of the C code, and the macros ROUND_UP and ROUND_DOWN of freelist.h.
pub mod Masks
pub mod PowerTest
pub mod Rounding
use nuaf.Prelude.Int.{ℤ, pos, negsuc}
use nuaf.Prelude.{
  ℕ, zero, suc, ◌+◌, ◌-◌, ◌*◌, ◌/◌, ◌%◌, ◌^◌, Bool, ◌&&◌, ltb, leb, ◌==◌, if◌then◌else◌,
}
use nuaf.Memory.{page_size}

-- `a + b`, `a - b` and `a * b` on size_t and on pointers.
abbrev pub add_size : ℕ → ℕ → ℕ
add_size a b = (a + b) % 2 ^ 64

abbrev pub sub_size : ℕ → ℕ → ℕ
sub_size a b = (a + 2 ^ 64 - b) % 2 ^ 64

abbrev pub mul_size : ℕ → ℕ → ℕ
mul_size a b = (a * b) % 2 ^ 64

-- The macros at an unsigned or a non-negative X.
unfoldable pub round_down : ℕ → ℕ → ℕ
round_down x y = if x % y == 0 then x else x - x % y

unfoldable pub round_up : ℕ → ℕ → ℕ
round_up x y = if x % y == 0 then x else x + (y - x % y)

-- `(intptr_t)x % PAGE_SIZE` as a 64-bit pattern: the remainder of a negative number is negative.
unfoldable pub page_offset : ℕ → ℕ
page_offset x =
    if ltb x (2 ^ 63) then x % page_size else (2 ^ 64 - (2 ^ 64 - x) % page_size) % 2 ^ 64

-- `ROUND_DOWN((intptr_t)x, PAGE_SIZE)`.
unfoldable pub page_start : ℕ → ℕ
page_start x =
    if ltb x (2 ^ 63)
    then (if x % page_size == 0 then x else x - x % page_size)
    else (x + (2 ^ 64 - x) % page_size) % 2 ^ 64

-- The conversion to an unsigned integer of `w` bits.
abbrev pub to_unsigned : (w : ℕ) → ℤ → ℕ
to_unsigned w (pos n) = n % 2 ^ w
to_unsigned w (negsuc n) = 2 ^ w - 1 - n % 2 ^ w
