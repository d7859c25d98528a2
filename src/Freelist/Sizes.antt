-- ===== src/Freelist/Sizes.antt =====
-- The block type that `freelist_pop` chooses for a request.
use native.Mathlib.Decide.{dec_le}
use nuaf.Prelude.{
  ℕ, zero, suc, ◌+◌, ◌-◌, ◌^◌, ◌≤◌, ◌<◌, ◌≡◌, inl, inr, arith, leb, Bool-cases, ltb, refl,
}
use nuaf.Prelude.Powers.{two_pow_mono}
use nuaf.Freelist.{ceil_log2_from, ceil_log2, block_type_of, block_size}

-- Within its fuel the search finds the least exponent from `c` on.
ceil_log2_from_lem :
    (f c e n : ℕ)
    → f + c ≡ e
    → n ≤ 2 ^ e
    → (n ≤ 2 ^ ceil_log2_from f c n)
      × (c ≤ ceil_log2_from f c n)
      × ((d : ℕ) → c ≤ d → d < ceil_log2_from f c n → 2 ^ d < n)
unfolding ceil_log2_from
ceil_log2_from_lem zero c e n q h =
    let same : c ≡ e = omega arith in (rw same h, omega arith, λ d p q. absurd (omega arith))
ceil_log2_from_lem (suc f) c e n q h = elim (Bool-cases (leb n (2 ^ c))) [
  | inl small ↦ rw small (ground arith, omega arith, λ d p q. absurd (omega arith))
  | inr big ↦
      let (enough, above, least) = ceil_log2_from_lem f (c + 1) e n (omega arith) h in
      rw big (
        enough,
        omega arith,
        λ d p q. elim (dec_le (c + 1) d) [
          | yes later ↦ least d later q
          | no here ↦ let same : d ≡ c = omega arith in rw same (ground arith)
        ],
      )
]

ceil_log2_lem : (n : ℕ) → n ≤ 2048 → (n ≤ 2 ^ ceil_log2 n) × ((d : ℕ) → d < ceil_log2 n → 2 ^ d < n)
unfolding ceil_log2
ceil_log2_lem n h =
    let (enough, above, least) = ceil_log2_from_lem 64 0 64 n refl (omega arith) in
    (enough, λ d p. least d (omega arith) p)

-- Between 16 and 2048 the exponent is at least 4 and at most 11.
ceil_log2_bounds : (n : ℕ) → 16 ≤ n → n ≤ 2048 → (ceil_log2 n ≤ 11) × (4 ≤ ceil_log2 n)
ceil_log2_bounds n lo hi =
    let (enough, least) = ceil_log2_lem n hi in
    let upper : ceil_log2 n ≤ 11 = elim (dec_le (ceil_log2 n) 11) [
      | yes p ↦ p
      | no p ↦ absurd (omega (arith, least 11 (omega arith)))
    ] in
    (
      upper,
      elim (dec_le (ceil_log2 n) 3) [
        | yes p ↦ absurd (omega (arith, enough, two_pow_mono (ceil_log2 n) 3 p))
        | no p ↦ omega arith
      ],
    )

-- For every small request `freelist_pop` picks one of the eight block types, the least whose objects
-- are large enough.
pub block_type_of_bounds :
    (n : ℕ)
    → n ≤ 2048
    → (block_type_of n < 8)
      × (n ≤ block_size (block_type_of n))
      × ((b : ℕ) → b < block_type_of n → block_size b < n)
unfolding block_type_of
block_type_of_bounds n h = elim (Bool-cases (ltb n 16)) [
  | inl small ↦ rw small (omega arith, ground arith, λ b p. absurd (omega arith))
  | inr big ↦
      let lo : 16 ≤ n = ground arith in
      let (enough, least) = ceil_log2_lem n h in
      let (upper, lower) = ceil_log2_bounds n lo h in
      let e : 4 + (ceil_log2 n - 4) ≡ ceil_log2 n = omega arith in
      rw big (omega arith, rw e enough, λ b p. least (4 + b) (omega arith))
]
