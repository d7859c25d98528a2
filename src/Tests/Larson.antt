-- ===== src/Tests/Larson.antt =====
-- larson.cpp on the allocator, at states of a run.
use nuaf.Prelude.{◌+◌, ◌*◌, ◌≤◌, ◌≡◌, refl, inl, true, false, not, ◌&&◌, ◌==◌, if◌then◌else◌, arith}
use nuaf.Prelude.Powers.{below_eight}
use nuaf.Memory.{page, write}
use nuaf.Process.{Process}
use nuaf.Process.Ensures.{Ensures, of_eq}
use nuaf.Freelist.{block_type_of}
use nuaf.Allocator.{xxmalloc}
use nuaf.Ownership.{Own, assign, live, Inv}
use nuaf.Safety.Small.{Refusal}
use nuaf.Safety.Malloc.{Received, xxmalloc-Received}
use nuaf.Wrapper.{nuaf_heap}
use nuaf.Clients.Larson.Lran2.{Lran2}
use nuaf.Clients.Larson.Threads.{ThreadData, exercise_heap}
use nuaf.Clients.Larson.Driver.{Options}
use nuaf.Clients.Larson.Rounds.{exercise_heap-IsRunning}
use nuaf.Clients.Larson.Serving.Thread.{IsFitting, IsAfter, OthersKept}
use nuaf.Clients.Larson.Serving.{Arrays, IsServing, AllEntries}
use nuaf.Clients.Larson.Serving.Running.{IsRunning}
use nuaf.Clients.Larson.Serving.Stores.{store_word-Inv}
use nuaf.Tests.Big.{big_holder, big_holding-Inv}
use nuaf.Tests.Kernel.{granting, granting-IsLawful, granting-Remaps}
use nuaf.Tests.States.{after, runs, initial, big_holding, no_getcwd}

-- The arrays of 600 blocks, in the two pages of a large object.
abbrev desk : Arrays
desk = record {
  array = 0xFFFF000010;
  blksize = 0xFFFF000010 + 8 * 600;
  asize = 600;
  f = 0xFFFF000;
  n = 2;
  g = 0xFFFF000;
  m = 2;
  array_aligned = refl;
  array_above = omega arith;
  array_below = omega arith;
  blksize_aligned = refl;
  blksize_above = omega arith;
  blksize_below = omega arith;
  disjoint = inl (omega arith);
}

-- Two threads with 300 blocks each.
abbrev options : Options
options = record {
  sleep_cnt = 1;
  min_size = 10;
  max_size = 500;
  min_threads = 2;
  max_threads = 2;
  chperthread = 300;
  num_rounds = 5;
  num_chunks = 600;
  seed = 1;
}

abbrev generator : Lran2
generator = record { x = 1; y = 2; v = λ j. j }

-- A small block of 20 bytes.
unfoldable received : Process
received = after (xxmalloc granting 20 big_holding)

block-Received : Received big_holder big_holding 20 0x100000010 received
unfolding runs initial big_holding received
block-Received =
    of_eq
      (xxmalloc-Received 20 granting-IsLawful big_holding-Inv (omega arith) (omega arith)
        (λ e. omega arith))
      refl

abbrev owner : Own
owner = assign big_holder 0x100000 (live 0x100000010 1)

received-Inv : Inv owner block-Received.free' received
unfolding block_type_of runs initial
received-Inv = block-Received.inv

-- The block is the one entry of the array.
unfoldable serving : Process
serving = record received { vm = write 8 0xFFFF000010 0x100000010 received.vm }

serving-Inv : Inv owner block-Received.free' serving
unfolding serving
serving-Inv =
    (store_word-Inv received-Inv 0xFFFF000 2 refl 0xFFFF000010 0x100000010 (omega arith) refl
      (omega arith) (omega arith) (omega arith)).1

-- The arrays of one block.
abbrev narrow : Arrays
narrow = record desk {
  blksize = 0xFFFF000018;
  asize = 1;
  array_below = omega arith;
  blksize_above = omega arith;
  blksize_below = omega arith;
  disjoint = inl (omega arith);
}

serving-IsServing : IsServing narrow AllEntries owner (λ i. 0x100000010) (λ i. 1) serving
unfolding runs initial big_holding received serving
serving-IsServing = record {
  array_big = refl;
  blksize_big = refl;
  stored = λ i lt. (let first : i ≡ 0 = omega arith in rw first refl);
  owned = λ i lt h. refl;
  apart = λ i j li lj hi hj ne. absurd (omega arith);
}

serving-IsRunning : IsRunning narrow 0x100001000 serving
unfolding runs initial big_holding received serving
serving-IsRunning = (
  owner,
  λ i. 0x100000010,
  λ i. 1,
  record {
    free' = block-Received.free';
    inv = serving-Inv;
    serving = serving-IsServing;
    within = record {
      low = omega arith;
      whole_file = refl;
      carved =
          below_eight (λ b. page (serving.g_flsts b).high_canonical_addr * 4096 ≤ 8 * 0x100001000)
            (omega arith) (omega arith) (omega arith) (omega arith) (omega arith) (omega arith)
            (omega arith) (omega arith);
    };
  },
)

abbrev worker : ThreadData
worker = record {
  threadno = 1;
  num_blocks = 5;
  seed = 1;
  min_size = 10;
  max_size = 500;
  array = 0xFFFF000010;
  blksize = 0xFFFF000018;
  asize = 1;
  c_allocs = 0;
  c_frees = 0;
  c_threads = 0;
  finished = false;
  rgen = generator;
}

worker-IsFitting : IsFitting narrow 0 worker
worker-IsFitting = record {
  array_lem = refl;
  blksize_lem = refl;
  within = omega arith;
  some_entry = omega arith;
  some_byte = omega arith;
  ordered = omega arith;
  small = omega arith;
}

exercise_heap-IsRunning_example :
    Ensures
      (Refusal granting)
      (λ r s'.
        IsFitting narrow 0 r.0
        × IsAfter 4 worker r.0
        × IsRunning narrow (0x100001000 + 8192 * 5) s'
        × OthersKept narrow 0 1 serving s'
        × (r.0.finished ≡ (if false then false else true))
        × (r.1 ≡ not false && not true))
      (exercise_heap (nuaf_heap granting no_getcwd) false (λ i. i == 3) true worker serving)
exercise_heap-IsRunning_example =
    exercise_heap-IsRunning no_getcwd granting-IsLawful granting-Remaps narrow 0 false (λ i. i == 3)
      true worker 0x100001000 serving worker-IsFitting (omega arith) (omega arith) (omega arith)
      serving-IsRunning
