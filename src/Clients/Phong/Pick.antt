-- ===== src/Clients/Phong/Pick.antt =====
-- The loop in phong.c that picks a size.
use nuaf.Prelude.{
  ℕ, zero, suc, ◌+◌, ◌-◌, ◌/◌, ◌%◌, ◌^◌, ◌≤◌, ◌<◌, ◌≡◌, refl, inl, inr, true, false, leb, ◌==◌,
  Bool-cases, le→leb, arith,
}
use nuaf.Prelude.Int.{ℤ}
use native.Mathlib.Nat.{mod-lt, div-eq_of_lt, lt_trans}
use nuaf.Words.{add_size, sub_size, mul_size}
use nuaf.Process.{Process}
use nuaf.Process.Ensures.{Ensures, returns, bind, weaken}
use nuaf.Clients.Phong.{configure, random, pick_from, pick_size}

zero_stops : (len x sz : ℕ) → 0 < len → leb (mul_size 100 sz / len) x ≡ false → 0 < sz
zero_stops len x zero some more =
    let e : mul_size 100 0 / len ≡ 0 = div-eq_of_lt (omega arith) in
    let stops : leb (mul_size 100 0 / len) x ≡ true = rw e (le→leb 0 x (omega arith)) in
    absurd (cc (stops, more))
zero_stops len x (suc sz) some more = omega arith

-- The loop ends within as many rounds as `len`, with a size below it, and leaves the state alone.
pick_from_ends :
    (rounds len rand : ℕ) (s : Process)
    → 0 < len
    → len ≤ rounds
    → Ensures ⊥ (λ r s'. (r.0 < len) × (s' ≡ s)) (pick_from rounds len rand s)
unfolding pick_from
pick_from_ends zero len rand s some le = absurd (omega arith)
pick_from_ends (suc rounds) len rand s some le =
    let nonzero : (len == 0) ≡ false = ground arith in
    let sz : ℕ = random rand % len in
    let below : sz < len = mod-lt (random rand) some in
    elim (Bool-cases (leb (mul_size 100 sz / len) (random (random rand) % 100))) [
      | inl stop ↦ rw (nonzero, stop) (returns (below, refl))
      | inr more ↦
          rw (nonzero, more)
            (weaken (λ r s' got. (lt_trans got.0 below, got.1))
              (pick_from_ends rounds sz (random (random rand)) s
                (zero_stops len (random (random rand) % 100) sz some more) (omega arith)))
    ]

-- Whatever the options, `main` puts them to their limits: at most 256 threads, at least one object
-- for each, and sizes from 1 on.
pub configure_limits :
    (nalloc nthread : ℤ) (minsize maxsize : ℕ)
    → let c = configure nalloc nthread minsize maxsize in
      (1 ≤ c.nalloc)
      × (c.nalloc ≤ 1000000)
      × (1 ≤ c.nthread)
      × (c.nthread ≤ 256)
      × (1 ≤ c.minsize)
      × (c.minsize ≤ c.maxsize)
unfolding configure
configure_limits nalloc nthread minsize maxsize = ground arith

configure_fits :
    (nalloc nthread : ℤ) (minsize maxsize : ℕ)
    → minsize < 2 ^ 64
    → maxsize < 2 ^ 64
    → (configure nalloc nthread minsize maxsize).maxsize < 2 ^ 64
unfolding configure
configure_fits nalloc nthread minsize maxsize lo hi = ground arith

-- For all options, where Maxsize is a size_t, and every state of the generator, picking a size
-- returns one between Minsize and Maxsize as `main` has set them, and changes nothing.
pub pick_size-bounds :
    (nalloc nthread : ℤ) (minsize maxsize rand : ℕ) (s : Process)
    → minsize < 2 ^ 64
    → maxsize < 2 ^ 64
    → let c = configure nalloc nthread minsize maxsize in
      Ensures ⊥ (λ r s'. (c.minsize ≤ r.0) × (r.0 ≤ c.maxsize) × (s' ≡ s)) (pick_size c rand s)
unfolding pick_size
pick_size-bounds nalloc nthread minsize maxsize rand s lo hi =
    let c = configure nalloc nthread minsize maxsize in
    let limits = configure_limits nalloc nthread minsize maxsize in
    let fits = configure_fits nalloc nthread minsize maxsize lo hi in
    let len : add_size (sub_size c.maxsize c.minsize) 1 ≡ c.maxsize - c.minsize + 1 =
      omega (arith, limits, fits) in
    rw len (
      bind
        (pick_from_ends (c.maxsize - c.minsize + 1) (c.maxsize - c.minsize + 1) rand s (omega arith)
          (omega arith))
        λ r s' got.
          let sum : add_size r.0 c.minsize ≡ r.0 + c.minsize = omega (arith, limits, fits, got) in
          rw sum (returns (omega (arith, got), omega (arith, got, limits), got.1)))
