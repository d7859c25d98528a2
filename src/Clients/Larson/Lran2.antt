-- ===== src/Clients/Larson/Lran2.antt =====
-- The random number generator at the end of larson.cpp.
pub mod Range
use nuaf.Prelude.{ℕ, zero, suc, ◌+◌, ◌*◌, ◌%◌, ◌==◌, if◌then◌else◌}
use nuaf.Prelude.Int.{ℤ, pos, negsuc, pos_part, neg_part, ◌-ℤ◌, rem_ℤ}

-- `struct lran2_st`; `v` is read below 97.
pub record Lran2 : Type 0 where
  pub x : ℕ
  pub y : ℕ
  pub v : ℕ → ℕ

-- LRAN2_MAX, IA and IC
abbrev pub lran2_max : ℕ
lran2_max = 714025

abbrev pub ia : ℕ
ia = 1366

abbrev pub ic : ℕ
ic = 150889

abbrev pub set_v : (ℕ → ℕ) → ℕ → ℕ → ℕ → ℕ
set_v v j x i = if i == j then x else v i

-- `(IA*x + IC) % LRAN2_MAX`
unfoldable pub next_x : ℕ → ℕ
next_x x = (ia * x + ic) % lran2_max

-- The loop of `lran2_init` from index `j` on, `n` rounds of it: the last `x`, and `v`.
unfoldable pub init_v : (n j x : ℕ) → (ℕ → ℕ) → ℕ × (ℕ → ℕ)
init_v zero j x v = (x, v)
init_v (suc n) j x v = init_v n (suc j) (next_x x) (set_v v j (next_x x))

-- `x` at the start of `lran2_init`, made non-negative.
unfoldable pub start_x : ℤ → ℕ
start_x seed = let x = rem_ℤ (pos ic -ℤ seed) lran2_max in pos_part x + neg_part x

unfoldable pub lran2_init : Lran2 → ℤ → Lran2
lran2_init d seed =
    let (x, v) = init_v 97 0 (start_x seed) d.v in record { x = next_x x; y = next_x x; v = v }

-- The number, and the generator after it.
unfoldable pub lran2 : Lran2 → ℕ × Lran2
lran2 d =
    let j = d.y % 97 in
    let y = d.v j in let x = next_x d.x in (y, record { x = x; y = y; v = set_v d.v j x })
