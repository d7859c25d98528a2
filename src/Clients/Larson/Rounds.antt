-- ===== src/Clients/Larson/Rounds.antt =====
-- A thread of larson.cpp on the allocator of this repository.
use nuaf.Prelude.{
  ℕ, zero, suc, ◌+◌, ◌*◌, ◌%◌, ◌^◌, ◌<◌, ◌≡◌, refl, sym, ◌∙◌, ◌≢◌, ◌&&◌, true, false, Bool,
  Bool-cases, inl, inr, ◌==◌, not, if◌then◌else◌, arith,
}
use native.Mathlib.Nat.{mod-lt}
use nuaf.Memory.{read}
use nuaf.System.{System, IsLawful, Remaps}
use nuaf.Process.{Process, Cmd, ok, load_word}
use nuaf.Process.Ensures.{Ensures, returns, bind, weaken, weaken_reason}
use nuaf.Freelist.{block_type_of}
use nuaf.Safety.Small.{Refusal}
use nuaf.Wrapper.{nuaf_heap}
use nuaf.Clients.Larson.Lran2.{lran2}
use nuaf.Clients.Larson.Warmup.{blk_size}
use nuaf.Clients.Larson.Threads.{ThreadData, keep_block, exercise_one, exercise_loop, exercise_heap}
use nuaf.Clients.Larson.Serving.{Arrays, load-entry}
use nuaf.Clients.Larson.Serving.Running.{IsRunning, raise, blk_size_bounds}
use nuaf.Clients.Larson.Serving.Thread.{
  IsFitting, IsFitting-Alike, OthersKept, IsAfter, IsAfter-suc, keep_block_at, keep_block-IsRunning,
}
use nuaf.Clients.Larson.Serving.Calls.{free-Holding, malloc-Holding}

-- The rounds of a thread that may run `n`: up to the one after which the test first reads true.
abbrev pub rounds_until : ℕ → (ℕ → Bool) → ℕ
rounds_until zero stopflag = 0
rounds_until (suc n) stopflag =
    let rest = rounds_until n (λ i. stopflag (suc i)) in if stopflag 0 then 1 else suc rest

module _ {k : System} (getcwd : ℕ → ℕ → Cmd ℕ) (law : IsLawful k) (remaps : Remaps k)
    (arrays : Arrays) (base : ℕ) where
  -- A round returns with the thread's blocks in order, and counts a call of each kind.
  round-IsRunning :
      (t : ThreadData) (high : ℕ) (s : Process)
      → IsFitting arrays base t
      → high + 4096 < 2 ^ 37
      → IsRunning arrays high s
      → Ensures
          (Refusal k)
          (λ t' s'.
            IsFitting arrays base t'
            × IsAfter 1 t t'
            × IsRunning arrays (high + 4096 + 4096) s'
            × OthersKept arrays base t.asize s s')
          (exercise_one (nuaf_heap k getcwd) t s)
  unfolding exercise_one
  round-IsRunning t high s fit room (own, p, b, held) =
      let victim = (lran2 t.rgen).0 % t.asize in
      let entry = base + victim in
      let below : victim < t.asize = mod-lt (lran2 t.rgen).0 fit.some_entry in
      let lt : entry < arrays.asize = omega (arith, below, fit.within) in
      let some : (t.asize == 0) ≡ false = ground (arith, fit.some_entry) in
      let sized = blk_size t.min_size t.max_size (lran2 t.rgen).1 in
      let (least, most) = blk_size_bounds t.min_size t.max_size (lran2 t.rgen).1 fit.ordered in
      let at : t.array + 8 * victim ≡ arrays.array + 8 * entry = omega (arith, fit.array_lem) in
      let at' : t.blksize + 4 * victim ≡ arrays.blksize + 4 * entry =
        omega (arith, fit.blksize_lem) in
      let loaded : load_word (t.array + 8 * victim) s ≡ ok (p entry) s =
        rw at (load-entry entry held.inv held.serving lt) in
      rw (some, loaded)
        (bind
          (weaken_reason (λ none. absurd none)
            (free-Holding getcwd law entry lt (omega arith) remaps held))
          λ u s1 freed.
            bind (malloc-Holding getcwd law room sized.0 (omega (arith, fit.small)) freed)
              λ q s2 got.
                let kept : Ensures (Refusal k)
                    (λ u s'.
                      IsRunning arrays (high + 4096 + 4096) s'
                      × ((j : ℕ)
                          → j < arrays.asize
                          → j ≢ entry
                          → read 8 (arrays.array + 8 * j) s'.vm ≡ p j))
                    (keep_block t.array t.blksize victim q sized.0 s2) =
                  rw
                    (keep_block_at t.array t.blksize victim arrays.array arrays.blksize entry q
                      sized.0 at at')
                    (weaken_reason (λ none. absurd none)
                      (keep_block-IsRunning entry lt q (block_type_of sized.0) sized.0 got.0 got.1
                        got.2 (omega (arith, fit.some_byte)) (omega (arith, fit.small)))) in
                bind kept λ u s3 done. returns (
                  IsFitting-Alike _ fit (refl, refl, refl, refl, refl),
                  record { allocs = refl; frees = refl; same_asize = refl },
                  done.0,
                  λ j lj out. done.1 j lj (omega arith) ∙ sym (held.serving.stored j lj),
                ))

  -- So does the loop, after as many rounds as there are blocks to allocate or fewer.
  loop-IsRunning :
      (n : ℕ) (stopflag : ℕ → Bool) (t : ThreadData) (high : ℕ) (s : Process)
      → IsFitting arrays base t
      → t.c_allocs < 2 ^ 64
      → t.c_frees < 2 ^ 64
      → high + 8192 * n < 2 ^ 37
      → IsRunning arrays high s
      → Ensures
          (Refusal k)
          (λ t' s'.
            IsFitting arrays base t'
            × IsAfter (rounds_until n stopflag) t t'
            × IsRunning arrays (high + 8192 * n) s'
            × OthersKept arrays base t.asize s s')
          (exercise_loop (nuaf_heap k getcwd) n stopflag t s)
  unfolding exercise_loop
  loop-IsRunning zero stopflag t high s fit al fr room running = returns (
    fit,
    record { allocs = omega arith; frees = omega arith; same_asize = refl },
    raise running (omega arith),
    λ j lj out. refl,
  )
  loop-IsRunning (suc n) stopflag t high s fit al fr room running =
      bind (round-IsRunning t high s fit (omega arith) running) λ t1 s1 got.
        elim (Bool-cases (stopflag 0)) [
          | inl stop ↦ rw stop (returns (got.0, got.1, raise got.2 (omega arith), got.3))
          | inr go ↦ rw go (
              weaken
                (λ t' s' more.
                  let (fit', after, running', others) = more in
                  (
                    fit',
                    IsAfter-suc got.1 after,
                    raise running' (omega arith),
                    λ j lj out. others j lj (omega (arith, got.1.same_asize)) ∙ got.3 j lj out,
                  ))
                (loop-IsRunning n (λ i. stopflag (suc i)) t1 (high + 4096 + 4096) s1 got.0
                  (omega (arith, got.1.allocs)) (omega (arith, got.1.frees)) (omega arith) got.2))
        ]

  -- For any answers of the clock and of the other threads, by way of `stopflag`, a run of
  -- `exercise_heap` returns, without a fault, or the process has ended because mmap refused. It
  -- returns with the allocator in order, with a small block of the program's own at every entry of the
  -- arrays, no two on one page, and with the entries of other threads as they were. It has counted as
  -- many allocations as releases: one for each round up to the one after which `stopflag` first reads
  -- true, at most NumBlocks, and none if stopped at once. It has marked the thread finished, unless
  -- stopped at once, and started another, unless stopped at once or in the end. This is so on a lawful
  -- kernel whose mremap moves a mapped page to any other page, for blocks of 1 to 2048 bytes, arrays in large objects
  -- of the program, a data file of DATA_SIZE bytes that is carved no further than eight times as far as
  -- the small region, and two pages below the address 2^37 for each of the NumBlocks.
  pub exercise_heap-IsRunning :
      (started : Bool) (stopflag : ℕ → Bool) (ended : Bool) (t : ThreadData) (high : ℕ)
      (s : Process)
      → IsFitting arrays base t
      → t.c_allocs < 2 ^ 64
      → t.c_frees < 2 ^ 64
      → high + 8192 * t.num_blocks < 2 ^ 37
      → IsRunning arrays high s
      → Ensures
          (Refusal k)
          (λ r s'.
            IsFitting arrays base r.0
            × IsAfter (if started then 0 else rounds_until t.num_blocks stopflag) t r.0
            × IsRunning arrays (high + 8192 * t.num_blocks) s'
            × OthersKept arrays base t.asize s s'
            × (r.0.finished ≡ (if started then t.finished else true))
            × (r.1 ≡ not started && not ended))
          (exercise_heap (nuaf_heap k getcwd) started stopflag ended t s)
  unfolding exercise_heap
  exercise_heap-IsRunning true stopflag ended t high s fit al fr room running = returns (
    fit,
    record { allocs = omega arith; frees = omega arith; same_asize = refl },
    raise running (omega arith),
    λ j lj out. refl,
    refl,
    refl,
  )
  exercise_heap-IsRunning false stopflag ended t high s fit al fr room running =
      bind
        (loop-IsRunning t.num_blocks stopflag
          (record t { finished = false; c_threads = t.c_threads + 1 }) high s
          (IsFitting-Alike _ fit (refl, refl, refl, refl, refl)) al fr room running)
        λ t' s' got.
          let (fit', after, running', others) = got in
          returns (
            IsFitting-Alike _ fit' (refl, refl, refl, refl, refl),
            record { allocs = after.allocs; frees = after.frees; same_asize = after.same_asize },
            running',
            others,
            refl,
            refl,
          )
