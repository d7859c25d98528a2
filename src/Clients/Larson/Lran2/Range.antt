-- ===== src/Clients/Larson/Lran2/Range.antt =====
-- Every number of the generator is below LRAN2_MAX.
use nuaf.Prelude.{ℕ, zero, suc, ◌+◌, ◌*◌, ◌%◌, ◌^◌, ◌<◌, arith}
use nuaf.Prelude.Int.{ℤ}
use nuaf.Clients.Larson.Lran2.{
  Lran2, lran2_max, set_v, next_x, init_v, start_x, lran2_init, lran2, ia, ic,
}

-- The state of the generator is in range.
pub record IsInRange (d : Lran2) : Type 0 where
  pub x_below : d.x < lran2_max
  pub y_below : d.y < lran2_max
  pub v_below : (j : ℕ) → j < 97 → d.v j < lran2_max

next_x-lt : (x : ℕ) → next_x x < lran2_max
unfolding next_x
next_x-lt x = omega arith

init_v-lt :
    (n j x : ℕ) (v : ℕ → ℕ)
    → ((i : ℕ) → i < j → v i < lran2_max)
    → (i : ℕ) → i < j + n
    → (init_v n j x v).1 i < lran2_max
unfolding init_v
init_v-lt zero j x v h i lt = h i (omega arith)
init_v-lt (suc n) j x v h i lt =
    init_v-lt n (suc j) (next_x x) (set_v v j (next_x x))
      (λ m below. ground (arith, h m, next_x-lt x)) i (omega arith)

pub lran2_init-IsInRange : (d : Lran2) (seed : ℤ) → IsInRange (lran2_init d seed)
unfolding lran2_init
lran2_init-IsInRange d seed =
    let x = (init_v 97 0 (start_x seed) d.v).0 in
    record {
      x_below = next_x-lt x;
      y_below = next_x-lt x;
      v_below =
          λ j h. init_v-lt 97 0 (start_x seed) d.v (λ i lt. absurd (omega arith)) j (omega arith);
    }

pub lran2-IsInRange : (d : Lran2) → IsInRange d → ((lran2 d).0 < lran2_max) × IsInRange (lran2 d).1
unfolding lran2
lran2-IsInRange d r =
    let new = r.v_below (d.y % 97) (omega arith) in
    (
      new,
      record {
        x_below = next_x-lt d.x;
        y_below = new;
        v_below = λ j h. ground (arith, r.v_below j h, next_x-lt d.x);
      },
    )

-- Any number of draws from the generator.
pub draws : ℕ → Lran2 → Lran2
draws zero d = d
draws (suc n) d = draws n (lran2 d).1

draws-IsInRange : (n : ℕ) (d : Lran2) → IsInRange d → IsInRange (draws n d)
unfolding draws
draws-IsInRange zero d r = r
draws-IsInRange (suc n) d r = draws-IsInRange n (lran2 d).1 (lran2-IsInRange d r).1

-- For every seed, each number that the generator ever gives is below LRAN2_MAX, and the sum that
-- it computes for the next one is below 2^31, so that it does not overflow a long, even of 32 bits.
pub lran2_bounds :
    (d : Lran2) (seed : ℤ) (n : ℕ)
    → ((lran2 (draws n (lran2_init d seed))).0 < lran2_max)
      × (ia * (draws n (lran2_init d seed)).x + ic < 2 ^ 31)
lran2_bounds d seed n =
    let r = draws-IsInRange n (lran2_init d seed) (lran2_init-IsInRange d seed) in
    ((lran2-IsInRange (draws n (lran2_init d seed)) r).0, omega (arith, r.x_below))
