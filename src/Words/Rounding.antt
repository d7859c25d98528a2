-- ===== src/Words/Rounding.antt =====
-- The rounding macros against division: multiples below and above, and the start of a page.
use nuaf.Prelude.{ℕ, ◌+◌, ◌-◌, ◌*◌, ◌%◌, ◌^◌, ◌≤◌, ◌<◌, ◌≡◌, arith}
use nuaf.Memory.{page}
use nuaf.Words.{round_down, round_up, page_start, page_offset}

pub round_down_lem : (x y : ℕ) → round_down x y ≡ x - x % y
unfolding round_down
round_down_lem x y = ground arith

-- At a user-space address the macro gives the first address of its page.
pub page_start-page : (x : ℕ) → x < 2 ^ 63 → page_start x ≡ page x * 4096
unfolding page_start
page_start-page x h = ground arith

pub page_offset-page : (x : ℕ) → x < 2 ^ 63 → page_offset x ≡ x - page x * 4096
unfolding page_offset
page_offset-page x h = ground arith

-- ROUND_UP to a page is the least multiple of the page size that is not below.
pub round_up-page :
    (x : ℕ) → (x ≤ round_up x 4096) × (round_up x 4096 < x + 4096) × (round_up x 4096 % 4096 ≡ 0)
unfolding round_up
round_up-page x = ground arith
