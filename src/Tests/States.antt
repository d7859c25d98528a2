-- ===== src/Tests/States.antt =====
-- States of the allocator on the granting kernel, reached by running the code.
use nuaf.Prelude.{ℕ, false}
use nuaf.Memory.{read, write}
use nuaf.Words.{round_down, round_up, page_start, page_offset}
use nuaf.Process.{
  Process, Run, Cmd, pure, ok, load, store, lock_g_m, unlock_g_m, lock_g_big_obj_m,
  unlock_g_big_obj_m,
}
use nuaf.Freelist.{
  freelist_init, freelist_push, freelist_pop, ceil_log2, block_type_of, carve, reuse,
}
use nuaf.Allocator.{
  start, init_mem, ensure_init, map_pages, write_header, map_big, xxmalloc_big, xxmalloc, walk_down,
  xxmalloc_usable_size, get_obj_start, remap_loop, move_object, free_small, free_big, xxfree,
}
use nuaf.Tests.Kernel.{granting, zeroed, removed, moved, resized}

-- The zero-initialised globals of a process with nothing mapped.
abbrev pub boot : Process
boot = record {
  vm = record { mapped = λ p. false; byte = λ a. 0; file_length = λ fd. 0; sys = 0 };
  num_mappings = 0;
  data_fd = 0;
  high_vaddr = 0x100000000;
  large_obj_next_page = 0xFFFF000000;
  par_ps = 0;
  g_m = false;
  g_big_obj_m = false;
  g_flsts = λ b. record { top_of_stack = 0; high_canonical_addr = 0 };
}

-- The state that a run ends in.
abbrev pub after : {A : Type 0} → Run A → Process
after (ok a s) = s
after _ = boot

-- Opens what a run of the allocator goes through.
unfoldable pub runs : Unit {0}
unfolding start freelist_init init_mem ensure_init xxmalloc xxmalloc_big map_big map_pages
    write_header xxmalloc_usable_size get_obj_start free_small move_object free_big xxfree load
    store read write round_down round_up page_start page_offset freelist_push freelist_pop ceil_log2
    block_type_of carve reuse walk_down remap_loop lock_g_m unlock_g_m lock_g_big_obj_m
    unlock_g_big_obj_m zeroed removed moved resized
runs = tt

unfoldable pub initial : Process
initial = after (init_mem granting boot)

-- The program holds an object of 5 bytes at 0x100000010.
unfoldable pub holding : Process
holding = after (xxmalloc granting 5 initial)

-- It has freed that object.
unfoldable pub released : Process
released = after (xxfree granting 0x100000013 holding)

-- The program holds a large object of 5000 bytes at 0xFFFF000010, with its header in the first 16 bytes of the page.
unfoldable pub big_holding : Process
big_holding = after (xxmalloc granting 5000 initial)

-- It has freed that object.
unfoldable pub big_released : Process
big_released = after (xxfree granting 0xFFFF001004 big_holding)

-- It holds a second object at 0x100001020, on the next page.
unfoldable pub crowded : Process
crowded = after (xxmalloc granting 16 holding)

-- Its first object holds the string "hi".
unfoldable pub lettered : Process
lettered = record holding { vm = write 2 0x100000010 0x6968 holding.vm }

-- getcwd that always fails.
abbrev pub no_getcwd : ℕ → ℕ → Cmd ℕ
no_getcwd buf size = pure 0
