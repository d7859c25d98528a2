-- ===== src/Memory/Zero.antt =====
-- A load of zero bytes.
use nuaf.Prelude.{ℕ, zero, suc, ◌+◌, ◌<◌, ◌≡◌, refl, ap, ◌∙◌, arith}
use nuaf.Memory.{Vm, read}

pub read-zero : (w a : ℕ) (vm : Vm) → ((i : ℕ) → i < w → vm.byte (a + i) ≡ 0) → read w a vm ≡ 0
unfolding read
read-zero zero a vm h = refl
read-zero (suc w) a vm h =
    let first : vm.byte a ≡ 0 =
      ap vm.byte (let e : a ≡ a + 0 = omega arith in e) ∙ h 0 (omega arith) in
    omega (
      arith,
      first,
      read-zero w (a + 1) vm λ i p.
          ap vm.byte (let e : a + 1 + i ≡ a + suc i = omega arith in e) ∙ h (suc i) (omega arith),
    )
