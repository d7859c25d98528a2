-- ===== src/Clients/Scalability/Time.antt =====
-- The time that linux-scalability records is the difference of the clock's two answers.
use nuaf.Prelude.{ℕ, ◌+◌, ◌*◌, ◌<◌, ◌≡◌, true, false, Bool-cases, inl, inr, arith}
use nuaf.Prelude.Int.{ℤ, pos, pos_part, neg_part, ◌+ℤ◌, ◌-ℤ◌, ltb_ℤ}
use nuaf.Clients.Scalability.{Timeval, elapsed, null_loop}

-- The microseconds of a time are `plus t` less `minus t`.
abbrev pub plus : Timeval → ℕ
plus t = pos_part t.tv_sec * 1000000 + pos_part t.tv_usec

abbrev pub minus : Timeval → ℕ
minus t = neg_part t.tv_sec * 1000000 + neg_part t.tv_usec

-- `0 <= tv_usec < 1000000`
abbrev pub IsNormal : Timeval → Type 0
IsNormal t = (neg_part t.tv_usec ≡ 0) × (pos_part t.tv_usec < 1000000)

-ℤ_parts :
    (a b : ℤ)
    → pos_part (a -ℤ b) + neg_part a + pos_part b ≡ neg_part (a -ℤ b) + pos_part a + neg_part b
unfolding ◌-ℤ◌
-ℤ_parts a b = ground arith

borrowed :
    (a b : ℤ)
    → (neg_part a ≡ 0) × (pos_part a < 1000000)
    → (neg_part b ≡ 0) × (pos_part b < 1000000)
    → ltb_ℤ (b -ℤ a) (pos 0) ≡ true
    → (neg_part (b -ℤ a +ℤ pos 1000000) ≡ 0)
      × (pos_part (b -ℤ a +ℤ pos 1000000) + pos_part a ≡ pos_part b + 1000000)
      × (pos_part b < pos_part a)
unfolding ◌+ℤ◌ ◌-ℤ◌
borrowed a b na nb less = ground arith

kept :
    (a b : ℤ)
    → (neg_part a ≡ 0) × (pos_part a < 1000000)
    → (neg_part b ≡ 0) × (pos_part b < 1000000)
    → ltb_ℤ (b -ℤ a) (pos 0) ≡ false
    → (neg_part (b -ℤ a) ≡ 0) × (pos_part (b -ℤ a) + pos_part a ≡ pos_part b)
unfolding ◌-ℤ◌
kept a b na nb more = ground arith

-- The difference of two normal times is normal.
elapsed_lem :
    (start end : Timeval)
    → IsNormal start
    → IsNormal end
    → IsNormal (elapsed start end)
      × (plus (elapsed start end) + plus start + minus end
          ≡ minus (elapsed start end) + minus start + plus end)
unfolding elapsed
elapsed_lem start end ns ne =
    let sec = end.tv_sec -ℤ start.tv_sec in
    let usec = end.tv_usec -ℤ start.tv_usec in
    elim (Bool-cases (ltb_ℤ usec (pos 0))) [
      | inl less ↦
          let (n, p, lt) = borrowed start.tv_usec end.tv_usec ns ne less in
          rw less (
            (n, omega (arith, p, lt)),
            omega (arith, n, p, ns, ne, -ℤ_parts end.tv_sec start.tv_sec, -ℤ_parts sec (pos 1)),
          )
      | inr more ↦
          let (n, p) = kept start.tv_usec end.tv_usec ns ne more in
          rw more (
            (n, omega (arith, p, ne)),
            omega (arith, n, p, ns, ne, -ℤ_parts end.tv_sec start.tv_sec),
          )
    ]

-- For two answers of gettimeofday, whose microseconds are in range, the time that `run_test` records
-- has its microseconds in range again and is exactly the difference of the two, whatever their
-- order. (A time is `plus` less `minus` microseconds.)
pub adjusted_lem :
    (start end : Timeval)
    → IsNormal start
    → IsNormal end
    → let adjusted = elapsed null_loop (elapsed start end) in
      IsNormal adjusted
      × (plus adjusted + plus start + minus end ≡ minus adjusted + minus start + plus end)
adjusted_lem start end ns ne =
    let (n, e) = elapsed_lem start end ns ne in
    let (n', e') = elapsed_lem null_loop (elapsed start end) (omega arith, omega arith) n in
    (n', omega (arith, e, e'))
