-- ===== src/Allocator/Remap.antt =====
-- The retry loop of `xxfree` around mremap.
use nuaf.Prelude.{ℕ, suc, ◌+◌, ◌*◌, ◌≡◌, refl, true, false, Option, some, none, ◌==◌, ltb}
use nuaf.Memory.{Vm}
use nuaf.System.{System}
use nuaf.Process.{Process, ok}
use nuaf.Allocator.{map_failed, remap_loop}

module _ (k : System) (n i vpage : ℕ) (s : Process) where
  -- One attempt.
  abbrev pub attempt : Option ℕ × Vm
  attempt = k.mremap vpage (4096 * i) 4096 s.high_vaddr s.vm

  pub remap_loop-success :
      {v : ℕ} {um : Vm}
      → attempt ≡ (some v, um)
      → (v == map_failed) ≡ false
      → remap_loop k (suc n) i vpage s ≡ ok (v, i + 1) (record s { vm = um })
  unfolding remap_loop
  remap_loop-success e ne = rw (e, ne) refl

  pub remap_loop-retry :
      {um : Vm}
      → attempt ≡ (none, um)
      → ltb (i + 1) 100 ≡ true
      → remap_loop k (suc n) i vpage s ≡ remap_loop k n (i + 1) vpage (record s { vm = um })
  unfolding remap_loop
  remap_loop-retry e more = rw (e, more) refl

  pub remap_loop-last :
      {um : Vm}
      → attempt ≡ (none, um)
      → ltb (i + 1) 100 ≡ false
      → remap_loop k (suc n) i vpage s ≡ ok (map_failed, i + 1) (record s { vm = um })
  unfolding remap_loop
  remap_loop-last e over = rw (e, over) refl
