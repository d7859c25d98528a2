-- ===== src/Tests/Clients.antt =====
-- The theorems about the benchmark programs at concrete inputs.
use nuaf.Prelude.{
  ℕ, ◌+◌, ◌-◌, ◌*◌, [], ◌∷◌, ◌≤◌, ◌<◌, ◌≡◌, ◌^◌, refl, true, false, ◌==◌, if◌then◌else◌, arith,
}
use nuaf.Prelude.Int.{pos, negsuc}
use nuaf.Process.{Process, ok, exit, undefined, ◌>>=◌}
use nuaf.Clients.{in_int}
use nuaf.Process.Ensures.{Ensures}
use nuaf.Clients.Barrier.{
  Threads, Step, Reach, SpuriousStep, before, barrier_init, barrier_enter, block, here, next,
}
use nuaf.Clients.Barrier.Rounds.{barrier_rounds, barrier_opens, barrier_leaks}
use nuaf.Clients.Larson.Lran2.{Lran2, lran2, lran2_init}
use nuaf.Clients.Larson.Threads.{ThreadData}
use nuaf.Clients.Larson.Driver.{Options, from_arguments, from_prompts, done_with_input, add_up}
use mathlib.Core.List.Memᴰ
use nuaf.Clients.Larson.Warmup.{shuffle}
use nuaf.Clients.Larson.Warmup.Shuffle.{IsPermuted, shuffle-IsPermuted}
use nuaf.Clients.Phong.{read_option, read_options, configure, pick_size}
use nuaf.Clients.Phong.Pick.{pick_size-bounds}
use nuaf.Clients.Scalability.{Timeval, elapsed, null_loop, settings}
use nuaf.Clients.Scalability.Time.{plus, minus, IsNormal, adjusted_lem}
use nuaf.Prelude.Powers.{below_eight}
use nuaf.Memory.{page}
use nuaf.Safety.Files.{IsWithin}
use nuaf.Safety.Small.{Refusal}
use nuaf.Safety.Start.{nobody, no_objects}
use nuaf.Wrapper.{nuaf_heap}
use nuaf.Clients.Thrash.{ThrashArg, thread_arg, thrash_worker}
use nuaf.Clients.Thrash.Rounds.{IsReady, thrash_worker-IsReady}
use nuaf.Tests.Kernel.{granting, granting-IsLawful, granting-Remaps}
use nuaf.Tests.Theorems.{initial-Inv}
use nuaf.Clients.ThreadTest.{test_options}
use nuaf.Tests.States.{boot, runs, initial, no_getcwd}

pick_size-bounds_example :
    Ensures ⊥
      (λ r s'. (10 ≤ r.0) × (r.0 ≤ 1024) × (s' ≡ boot))
      (pick_size (configure (pos 500) (negsuc 3) 10 1024) 7 boot)
unfolding configure
pick_size-bounds_example =
    pick_size-bounds (pos 500) (negsuc 3) 10 1024 7 boot (omega arith) (omega arith)

abbrev generator : Lran2
generator = record { x = 0; y = 0; v = λ j. 0 }

-- Two threads with 1000 blocks each.
abbrev answers : ℕ → ℕ
answers i = if i == 5 then 1000 else if i == 2 then 500 else if i == 1 then 10 else 2

abbrev seeded : Lran2
seeded = lran2_init generator (pos 2)

abbrev asked : Options
asked = record {
  sleep_cnt = 2;
  min_size = 10;
  max_size = 500;
  min_threads = 2;
  max_threads = 2;
  chperthread = 1000;
  num_rounds = 2;
  num_chunks = 2000;
  seed = 2;
}

abbrev second_thread : ThreadData
second_thread =
    let seed = (lran2 (lran2 seeded).1).0 in
    record {
      threadno = 2;
      num_blocks = 2000;
      seed = seed;
      min_size = 10;
      max_size = 500;
      array = 0x100000 + 8 * 1000;
      blksize = 0x200000 + 4 * 1000;
      asize = 1000;
      c_allocs = 0;
      c_frees = 0;
      c_threads = 0;
      finished = false;
      rgen = lran2_init generator (pos seed);
    }

-- 10^4 blocks for each of 10^4 threads are more than MAX_BLOCKS, and the prompts refuse them. The product
-- of a million and a million leaves the int, and the command line refuses no number of blocks.
from_prompts-refused : (do o ← from_prompts (λ i. 10000); done_with_input o generator) boot ≡ exit 1
unfolding from_prompts done_with_input in_int
from_prompts-refused = refl

from_prompts-overflows : from_prompts (λ i. 1000000) boot ≡ undefined
unfolding from_prompts in_int
from_prompts-overflows = refl

from_arguments-accepted :
    done_with_input (from_arguments (λ i. 1000000)) generator boot
    ≡ ok (lran2_init generator (pos 1000000)) boot
unfolding from_arguments done_with_input
from_arguments-accepted = refl

add_up-second :
    (add_up
      (record second_thread { c_allocs = 7; c_frees = 7; c_threads = 3 } ∷ [])
      (record { sum_allocs = 5; sum_frees = 4; sum_threads = 1 })).0
    ≡ record { sum_allocs = 12; sum_frees = 11; sum_threads = 4 }
unfolding add_up
add_up-second = refl

settings-capped :
    settings 4 (λ i. pos 200) boot
    ≡ ok (record { size = 200; iteration_count = 200; thread_count = 50 }) boot
unfolding settings
settings-capped = refl

settings-refused : settings 5 (λ i. pos 1) boot ≡ exit 1
unfolding settings
settings-refused = refl

thread_arg-split :
    thread_arg 5 (λ i. 12 * i) boot
    ≡ ok (record { obj_size = 36; iterations = 24; repetitions = 4 }) boot
unfolding thread_arg
thread_arg-split = refl

thread_arg-refused : thread_arg 4 (λ i. 12 * i) boot ≡ exit 1
unfolding thread_arg
thread_arg-refused = refl

test_options-some :
    test_options 3 (λ i. 7)
    ≡ record { niterations = 7; nobjects = 30000; nthreads = 7; work = 0; obj_size = 1 }
unfolding test_options
test_options-some = refl

-- `-t8 x -Z-1`
read_options-some :
    read_options
      (record { dash = b'-'; letter = b't'; number = pos 8 }
        ∷ record { dash = b'x'; letter = 0; number = pos 0 }
        ∷ record { dash = b'-'; letter = b'Z'; number = negsuc 0 }
        ∷ [])
      (record { nalloc = pos 1000000; nthread = pos 256; minsize = 10; maxsize = 1024 })
    ≡ record { nalloc = pos 1000000; nthread = pos 8; minsize = 10; maxsize = 2 ^ 64 - 1 }
unfolding read_options read_option
read_options-some = refl

-- All pages are mapped, and all bytes 0.
abbrev flat : Process
flat = record boot {
  vm = record { mapped = λ p. true; byte = λ a. 0; file_length = λ fd. 0; sys = 0 };
}

shuffle-IsPermuted_example :
    Ensures ⊥ (λ d' s'. IsPermuted 0x10000 5 flat s') (shuffle 0x10000 5 generator flat)
shuffle-IsPermuted_example =
    shuffle-IsPermuted 0x10000 5 generator flat
      (record { aligned = refl; mapped = λ i lt. refl; bytes = λ b. omega arith })

initial-IsWithin : IsWithin 0x100000000 initial
unfolding runs initial
initial-IsWithin = record {
  low = omega arith;
  whole_file = refl;
  carved =
      below_eight (λ b. page (initial.g_flsts b).high_canonical_addr * 4096 ≤ 8 * 0x100000000)
        (omega arith) (omega arith) (omega arith) (omega arith) (omega arith) (omega arith)
        (omega arith) (omega arith);
}

abbrev thrash_arg : ThrashArg
thrash_arg = record { obj_size = 8; iterations = 100; repetitions = 1000 }

thrash_worker-IsReady_example :
    Ensures
      (Refusal granting)
      (λ u. IsReady (0x100000000 + 4096 * 100) (0x100000000 + 8192 * 100))
      (thrash_worker (nuaf_heap granting no_getcwd) thrash_arg initial)
unfolding runs initial
thrash_worker-IsReady_example =
    thrash_worker-IsReady no_getcwd granting-IsLawful thrash_arg 0x100000000 0x100000000 initial
      granting-Remaps (omega arith) (omega arith)
      (nobody, no_objects, initial-Inv, (omega arith, initial-IsWithin))

abbrev first : Timeval
first = record { tv_sec = pos 5; tv_usec = pos 900000 }

abbrev second : Timeval
second = record { tv_sec = pos 7; tv_usec = pos 100000 }

adjusted_lem_example :
    IsNormal (elapsed null_loop (elapsed first second))
    × (plus (elapsed null_loop (elapsed first second)) + plus first + minus second
        ≡ minus (elapsed null_loop (elapsed first second)) + minus first + plus second)
adjusted_lem_example = adjusted_lem first second (refl, omega arith) (refl, omega arith)

-- One of the two threads waits.
abbrev one_waits : Threads
one_waits = record {
  barrier = record { needed = 2; called = 1 };
  blocked = 1;
  woken = 0;
  passed = 0;
  arrived = 1;
}

one_waits-Reach : Reach Step (before 2) one_waits
unfolding barrier_init barrier_enter
one_waits-Reach = next here (block refl)

barrier_rounds_example :
    (rounds : ℕ) × (0 ≡ rounds * 2)
    × (1 ≡ rounds * 2 + 1)
    × (1 < 2)
    × (barrier_enter (record { needed = 2; called = 1 }) ≡ (
        if 1 + 1 == 2 then (barrier_init 2, true) else (record { needed = 2; called = 2 }, false)))
barrier_rounds_example = barrier_rounds {t = one_waits} (omega arith) one_waits-Reach

barrier_opens_example :
    (u : Threads) × Reach Step one_waits u
    × (u.blocked ≡ 0)
    × (u.woken ≡ 0)
    × (u.arrived ≡ 2)
    × (u.passed ≡ u.arrived)
barrier_opens_example = barrier_opens (omega arith) one_waits-Reach refl

barrier_leaks_example :
    (t : Threads) × Reach SpuriousStep (before 2) t × (t.arrived ≡ 1) × (t.passed ≡ 1)
barrier_leaks_example = barrier_leaks 2 (omega arith)
