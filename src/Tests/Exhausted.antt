-- ===== src/Tests/Exhausted.antt =====
-- The small region used up, next to a large object.
use nuaf.Prelude.{ℕ, ◌*◌, ◌≡◌, ◌≢◌, refl, arith}
use nuaf.Memory.{page, read}
use nuaf.Process.{Process, ok}
use nuaf.Allocator.{large_obj_start_magic, xxmalloc}
use nuaf.Ownership.{large_first, Inv}
use nuaf.Safety.Exhausted.{xxmalloc-exhausted}
use nuaf.Tests.Big.{object-BigReceived, big_holder, big_holding-Inv}
use nuaf.Tests.Kernel.{granting, granting-IsLawful}
use nuaf.Tests.States.{runs, initial, big_holding}

unfoldable spent : Process
spent = record big_holding { high_vaddr = 0xFFFF000000 }

spent-Inv : Inv big_holder object-BigReceived.free' spent
unfolding spent runs initial big_holding
spent-Inv =
    let l = big_holding-Inv.layout in
    record {
      layout = record {
        ready = l.ready;
        high_aligned = refl;
        high_above = omega arith;
        high_below = omega arith;
        next_aligned = l.next_aligned;
        next_above = l.next_above;
        slots = l.slots;
        chains = l.chains;
        holds = l.holds;
        unused_small = λ p from to. absurd (omega arith);
        unused_big = l.unused_big;
        whole = l.whole;
      };
      g_m_free = refl;
      g_big_obj_m_free = refl;
    }

xxmalloc-exhausted_example :
    (a : ℕ) × (s' : Process) × (xxmalloc granting 100 spent ≡ ok a s')
    × (page a ≡ large_first)
    × (read 8 (large_first * 4096) spent.vm ≡ large_obj_start_magic)
    × (read 8 (large_first * 4096) s'.vm ≢ large_obj_start_magic)
unfolding spent runs initial big_holding
xxmalloc-exhausted_example =
    xxmalloc-exhausted 100 2 granting-IsLawful spent-Inv refl refl (omega arith) refl (omega arith)
      refl
