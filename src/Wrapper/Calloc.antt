-- ===== src/Wrapper/Calloc.antt =====
-- `calloc`: its test for overflow, and the zeroed block.
use native.Mathlib.Nat.{div-add-mod}
use nuaf.Prelude.{
  ℕ, ◌*◌, ◌/◌, ◌%◌, ◌^◌, ◌<◌, ◌≡◌, ◌≢◌, refl, ap, true, false, ◌&&◌, not, arith, leb, ◌==◌,
  if◌then◌else◌,
}
use native.Mathlib.Decide.{dec_le}
use nuaf.Process.{pure}
use nuaf.Wrapper.{Heap, zeroed_malloc, calloc}

quotient-ne : (n m x : ℕ) → x < n * m → n ≢ x / m
quotient-ne n m x h e = grind (arith, div-add-mod x m)

quotient-eq : (n m : ℕ) → 0 < m → n ≡ n * m / m
quotient-eq n m h = grind (arith, div-add-mod (n * m) m)

-- The test of `calloc` on two sizes holds exactly when their product leaves size_t.
overflow_test :
    (n m : ℕ)
    → n < 2 ^ 64
    → m < 2 ^ 64
    → (not (m == 0) && not (n == (n * m) % 2 ^ 64 / m)) ≡ leb (2 ^ 64) (n * m)
overflow_test n m hn hm = elim (dec_le (2 ^ 64) (n * m)) [
  | yes over ↦
      let some : 0 < m = grind arith in
      let ne = quotient-ne n m (n * m % 2 ^ 64) (omega arith) in ground (arith, ne)
  | no fits ↦ elim (dec_le m 0) [
    | yes z ↦ ground arith
    | no pos ↦
        let same : n * m % 2 ^ 64 ≡ n * m = omega arith in
        rw same (ground (arith, quotient-eq n m (omega arith)))
  ]
]

-- For any two sizes, `calloc` returns NULL at once if their product does not fit size_t, and
-- otherwise allocates and clears a block of the product's size.
pub calloc_lem :
    (h : Heap) (n m : ℕ)
    → n < 2 ^ 64
    → m < 2 ^ 64
    → calloc h n m ≡ (if leb (2 ^ 64) (n * m) then pure 0 else zeroed_malloc h (n * m))
unfolding calloc
calloc_lem h n m hn hm = elim (dec_le (2 ^ 64) (n * m)) [
  | yes over ↦
      let e : leb (2 ^ 64) (n * m) ≡ true = ground arith in rw (overflow_test n m hn hm, e) refl
  | no fits ↦
      let e : leb (2 ^ 64) (n * m) ≡ false = ground arith in
      let same : n * m % 2 ^ 64 ≡ n * m = omega arith in
      rw (overflow_test n m hn hm, e) (ap (zeroed_malloc h) same)
]
