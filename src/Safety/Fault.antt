-- ===== src/Safety/Fault.antt =====
-- A page that was freed is not mapped: every access to it, a second free included, faults.
use nuaf.Prelude.{
  ℕ, suc, ◌-◌, ◌*◌, ◌^◌, ◌<◌, ◌≡◌, ◌≢◌, refl, inl, inr, false, List, arith, ◌==◌, Bool-cases,
}
use mathlib.Core.Path.{subst}
use nuaf.Memory.{page}
use nuaf.Words.Rounding.{page_start-page}
use nuaf.System.{System}
use nuaf.Process.{Process, segv}
use nuaf.Process.Access.{load_fault}
use nuaf.Allocator.{is_large, walk_down, xxmalloc_usable_size, xxfree}
use nuaf.Ownership.{retired, Own, Holds, Inv}
use nuaf.Safety.Malloc.{ensure_init_ready}

pub unmapped_of_retired :
    {own : Own} {free : ℕ → List ℕ} {s : Process} (p : ℕ)
    → Inv own free s
    → own p ≡ retired
    → s.vm.mapped p ≡ false
unmapped_of_retired {s} p inv e = subst (Holds s.vm p) e (inv.layout.holds p)

walk_down_fault :
    (fuel q : ℕ) (s : Process)
    → q < 2 ^ 63
    → s.vm.mapped (page q) ≡ false
    → walk_down (suc fuel) q s ≡ segv (page q * 4096)
unfolding walk_down
walk_down_fault fuel q s user gone =
    rw
      (
        page_start-page q user,
        load_fault 8 (page q * 4096) (page q) s (omega arith) (omega arith) (omega arith) gone,
      )
      refl

usable_size_fault :
    (q : ℕ) (s : Process)
    → q ≢ 0
    → q < 2 ^ 63
    → s.vm.mapped (page q) ≡ false
    → xxmalloc_usable_size q s ≡ segv (page q * 4096)
unfolding xxmalloc_usable_size
usable_size_fault q s ne user gone =
    let not_null : (q == 0) ≡ false = ground arith in
    elim (Bool-cases (is_large q)) [
      | inl large ↦ rw (not_null, large, walk_down_fault (2 ^ 52 - 1) q s user gone) refl
      | inr small ↦
          rw
            (
              not_null,
              small,
              page_start-page q user,
              load_fault 4 (page q * 4096) (page q) s (omega arith) (omega arith) (omega arith)
                  gone,
            )
            refl
    ]

-- Freeing an object a second time, through any pointer into a page that was freed, small or large,
-- raises SIGSEGV at the start of that page.
pub xxfree-retired :
    (k : System) {own : Own} {free : ℕ → List ℕ} {s : Process} (q : ℕ)
    → Inv own free s
    → own (page q) ≡ retired
    → q ≢ 0
    → q < 2 ^ 63
    → xxfree k q s ≡ segv (page q * 4096)
unfolding xxfree
xxfree-retired k {s} q inv e ne user =
    let not_null : (q == 0) ≡ false = ground arith in
    rw
      (
        ensure_init_ready k s inv.layout.ready,
        not_null,
        usable_size_fault q s ne user (unmapped_of_retired (page q) inv e),
      )
      refl
