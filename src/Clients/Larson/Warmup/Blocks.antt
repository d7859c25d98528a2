-- ===== src/Clients/Larson/Warmup/Blocks.antt =====
-- `warmup` of larson.cpp on the allocator of this repository.
use nuaf.Prelude.{ℕ, ◌+◌, ◌*◌, ◌^◌, ◌%◌, ◌≤◌, ◌<◌, ◌≡◌, ◌≢◌, refl, false, List, ◌==◌, arith}
use native.Mathlib.Nat.{mod-lt}
use nuaf.Memory.{read}
use nuaf.System.{System, IsLawful, Remaps}
use nuaf.Process.{Process, Cmd}
use nuaf.Process.Ensures.{Ensures, returns, bind, weaken, weaken_reason}
use nuaf.Freelist.{block_type_of}
use nuaf.Ownership.{big, Own, Inv}
use nuaf.Safety.Small.{Refusal}
use nuaf.Safety.Files.{IsWithin}
use nuaf.Wrapper.{nuaf_heap}
use nuaf.Clients.{for_from}
use nuaf.Clients.Loops.{for_from-Ensures}
use nuaf.Clients.Larson.Lran2.{Lran2, lran2}
use nuaf.Clients.Larson.Warmup.{blk_size, new_block, replace_block, warmup}
use nuaf.Clients.Larson.Warmup.Swap.{shuffle-IsRunning}
use nuaf.Clients.Larson.Serving.{Arrays, IsServing-fewer, AllEntries, load-entry}
use nuaf.Clients.Larson.Serving.Entries.{update}
use nuaf.Clients.Larson.Serving.Calls.{Holding, free-Holding, malloc-Holding}
use nuaf.Clients.Larson.Serving.Running.{IsRunning, raise, blk_size_bounds, enter-Holding}

module _ {k : System} (getcwd : ℕ → ℕ → Cmd ℕ) (law : IsLawful k) (arrays : Arrays)
    (min_size max_size : ℕ) (some : 0 < min_size) (ordered : min_size ≤ max_size)
    (small : max_size ≤ 2048) where
  new_block-Holding :
      {has : ℕ → Type 0} {own : Own} {p b : ℕ → ℕ} (has' : ℕ → Type 0) (i high : ℕ) (d : Lran2)
      (s : Process)
      → i < arrays.asize
      → ((j : ℕ) → has' j → j ≢ i → has j)
      → high < 2 ^ 37
      → Holding arrays has own p b high s
      → Ensures
          (Refusal k)
          (λ d' s'.
            (own' : Own) × (p' : ℕ → ℕ) × (b' : ℕ → ℕ) × Holding arrays has' own' p' b'
              (high + 4096)
              s')
          (new_block (nuaf_heap k getcwd) min_size max_size arrays.array arrays.blksize i d s)
  unfolding new_block
  new_block-Holding {p} {b} has' i high d s lt but room held =
      let drawn = blk_size min_size max_size d in
      let (least, most) = blk_size_bounds min_size max_size d ordered in
      bind (malloc-Holding getcwd law room drawn.0 (omega arith) held) λ q s1 got.
        let c = block_type_of drawn.0 in
        let (s2, s3, run2, run3, read_back, nonzero, held3) =
          enter-Holding i has' q c drawn.0 lt but got.0 got.1 got.2 (omega arith) (omega arith) in
        rw (run2, run3, read_back, nonzero) (returns (_, update p i q, update b i c, held3))

  fill-IsRunning :
      (high : ℕ) (d : Lran2) (s : Process)
      → high + 4096 * arrays.asize < 2 ^ 37
      → ((own : Own) × (p : ℕ → ℕ) × (b : ℕ → ℕ) × Holding arrays (λ j. j < 0) own p b high s)
      → Ensures
          (Refusal k)
          (λ d'. IsRunning arrays (high + 4096 * arrays.asize))
          (for_from arrays.asize 0
            (new_block (nuaf_heap k getcwd) min_size max_size arrays.array arrays.blksize)
            d
            s)
  fill-IsRunning high d s room (own, p, b, start) =
      let Filled = λ (i : ℕ) (d' : Lran2) (t : Process).
        (own : Own) × (p : ℕ → ℕ) × (b : ℕ → ℕ) × Holding arrays (λ j. j < i) own p b
          (high + 4096 * i) t in
      weaken
        (λ d' s' filled.
          let (own', p', b', held) = filled in
          (
            own',
            p',
            b',
            record {
              free' = held.free';
              inv = held.inv;
              serving = IsServing-fewer (λ i below h. below) held.serving;
              within = held.within;
            },
          ))
        (for_from-Ensures Filled arrays.asize
          (new_block (nuaf_heap k getcwd) min_size max_size arrays.array arrays.blksize)
          (λ i d' t lt filled.
            let (own', p', b', held) = filled in
            let next : high + 4096 * (i + 1) ≡ high + 4096 * i + 4096 = omega arith in
            rw next (
              new_block-Holding (λ j. j < i + 1) i (high + 4096 * i) d' t lt
                (λ j below ne. omega arith) (omega arith) held))
          arrays.asize 0 d s (omega arith)
          (own, p, b, (let same : high + 4096 * 0 ≡ high = omega arith in rw same start)))

  replace_block-IsRunning :
      (high i : ℕ) (d : Lran2) (s : Process)
      → Remaps k
      → 0 < arrays.asize
      → high + 4096 < 2 ^ 37
      → IsRunning arrays high s
      → Ensures
          (Refusal k)
          (λ d'. IsRunning arrays (high + 4096 + 4096))
          (replace_block
            (nuaf_heap k getcwd)
            min_size
            max_size
            arrays.array
            arrays.blksize
            arrays.asize
            i
            d
            s)
  unfolding replace_block
  replace_block-IsRunning high i d s remaps any room (own, p, b, held) =
      let victim = (lran2 d).0 % arrays.asize in
      let lt : victim < arrays.asize = mod-lt (lran2 d).0 any in
      let nonzero : (arrays.asize == 0) ≡ false = ground arith in
      rw (nonzero, load-entry victim held.inv held.serving lt)
        (bind
          (weaken_reason (λ none. absurd none)
            (free-Holding getcwd law victim lt (omega arith) remaps held))
          λ u s1 freed.
            new_block-Holding AllEntries victim (high + 4096) (lran2 d).1 s1 lt (λ j h ne. ne) room
              freed)

  -- On a lawful kernel whose mremap moves a mapped page to any other page, from a state of the
  -- invariant in which the program owns the large objects that the two arrays lie in, `warmup` returns,
  -- without a fault, with a small block of the program's own at each entry, no two on one page, or the process has ended
  -- because mmap refused. This is so for at least one block of 1 to 2048 bytes, and nine pages
  -- below the address 2^37 for each.
  pub warmup-IsRunning :
      {own : Own} {free : ℕ → List ℕ} (high : ℕ) (d : Lran2) (s : Process)
      → Remaps k
      → 0 < arrays.asize
      → high + 36864 * arrays.asize < 2 ^ 37
      → Inv own free s
      → own arrays.f ≡ big arrays.f arrays.n
      → own arrays.g ≡ big arrays.g arrays.m
      → IsWithin high s
      → Ensures
          (Refusal k)
          (λ d'. IsRunning arrays (high + 36864 * arrays.asize))
          (warmup
            (nuaf_heap k getcwd)
            min_size
            max_size
            arrays.array
            arrays.blksize
            arrays.asize
            d
            s)
  unfolding warmup
  warmup-IsRunning {own} {free} high d s remaps any room inv array_big blksize_big within =
      let n = arrays.asize in
      let body =
        replace_block (nuaf_heap k getcwd) min_size max_size arrays.array arrays.blksize n in
      let full : ℕ = high + 4096 * n in
      let start : Holding arrays (λ j. j < 0) own (λ i. read 8 (arrays.array + 8 * i) s.vm) (λ i. 0)
          high s =
        record {
          free' = free;
          inv = inv;
          serving = record {
            array_big = array_big;
            blksize_big = blksize_big;
            stored = λ i lt. refl;
            owned = λ i lt h. absurd (omega arith);
            apart = λ i j li lj hi hj ne. absurd (omega arith);
          };
          within = within;
        } in
      bind (fill-IsRunning high d s (omega arith) (own, _, _, start)) λ d1 s1 filled.
        bind
          (weaken_reason (λ none. absurd none)
            (shuffle-IsRunning arrays full n d1 s1 (omega arith) filled))
          λ d2 s2 shuffled.
            weaken (λ d3 s3 running. raise running (omega arith))
              (for_from-Ensures (λ i d'. IsRunning arrays (full + 8192 * i)) (4 * n) body
                (λ i d' t lt running.
                  let next : full + 8192 * (i + 1) ≡ full + 8192 * i + 4096 + 4096 = omega arith in
                  rw next (
                    replace_block-IsRunning (full + 8192 * i) i d' t remaps any (omega arith)
                      running))
                (4 * n) 0 d2 s2 (omega arith) (raise shuffled (omega arith)))
