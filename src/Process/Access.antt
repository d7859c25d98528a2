-- ===== src/Process/Access.antt =====
-- Loads and stores inside one mapped page succeed; a store changes no other page.
use nuaf.Prelude.{ℕ, ◌+◌, ◌-◌, ◌%◌, ◌≤◌, ◌<◌, ◌≡◌, ◌≢◌, ◌⊎◌, true, false, arith}
use nuaf.Memory.{Vm, page, read, write}
use nuaf.Memory.Bytes.{mapped-write, byte-write_apart}
use nuaf.System.{SamePage}
use nuaf.Process.{Process, ok, segv, load, store}

module _ (w a p : ℕ) (s : Process) (at : page a ≡ p) (some : 0 < w)
    (fits : a % 4096 + w ≤ 4096) where
  last_page : page (a + w - 1) ≡ p
  last_page = omega arith

  pub load_ok : s.vm.mapped p ≡ true → load w a s ≡ ok (read w a s.vm) s
  unfolding load
  load_ok m = rw (at, last_page, m)

  pub load_fault : s.vm.mapped p ≡ false → load w a s ≡ segv a
  unfolding load
  load_fault m = rw (at, last_page, m)

  pub store_ok :
      (v : ℕ) → s.vm.mapped p ≡ true → store w a v s ≡ ok tt (record s { vm = write w a v s.vm })
  unfolding store
  store_ok v m = rw (at, last_page, m)

  pub store_fault : (v : ℕ) → s.vm.mapped p ≡ false → store w a v s ≡ segv a
  unfolding store
  store_fault v m = rw (at, last_page, m)

pub SamePage-write :
    (w a p v : ℕ) (vm : Vm)
    → page a ≡ p
    → a % 4096 + w ≤ 4096
    → (q : ℕ) → q ≢ p
    → SamePage q vm (write w a v vm)
SamePage-write w a p v vm at fits q ne = record {
  mapped = mapped-write w a v vm q;
  bytes = λ c e. byte-write_apart w a v vm c (sides c e);
}
  where
    sides : (c : ℕ) → page c ≡ q → (c < a) ⊎ (a + w ≤ c)
    sides c e = omega arith
