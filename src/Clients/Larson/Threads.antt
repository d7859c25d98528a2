-- ===== src/Clients/Larson/Threads.antt =====
-- The threads of larson.cpp: what each is given, what it does, and what is added up in the end.
use nuaf.Prelude.{ℕ, zero, suc, ◌+◌, ◌*◌, Bool, true, false, ◌==◌, not, if◌then◌else◌}
use nuaf.Prelude.Int.{pos}
use nuaf.Words.{add_size}
use nuaf.Process.{Cmd, pure, ◌>>=◌, ◌>>◌, load, load_word, store, store_word, store_int}
use nuaf.Wrapper.{Heap, malloc, free}
use nuaf.Clients.{rem, assert, in_int}
use nuaf.Clients.Larson.Lran2.{Lran2, lran2, lran2_init}
use nuaf.Clients.Larson.Warmup.{blk_size}

-- `thread_data`; `cBytesAlloced` is never read or written.
pub record ThreadData : Type 0 where
  pub threadno : ℕ
  pub num_blocks : ℕ
  pub seed : ℕ
  pub min_size : ℕ
  pub max_size : ℕ
  pub array : ℕ
  pub blksize : ℕ
  pub asize : ℕ
  pub c_allocs : ℕ
  pub c_frees : ℕ
  pub c_threads : ℕ
  pub finished : Bool
  pub rgen : Lran2

-- The loop of `runthreads` that sets up thread `i`: its data, and the main generator after it.
unfoldable pub setup_thread :
    (min_size max_size blkp blksize num_rounds nperthread i : ℕ)
    → Lran2
    → Lran2
    → Cmd (ThreadData × Lran2)
setup_thread min_size max_size blkp blksize num_rounds nperthread i old d =
    let drawn = lran2 d in
    do
      num_blocks ← in_int (num_rounds * nperthread)
      entries ← in_int (i * nperthread)
      pure (
        record {
          threadno = i + 1;
          num_blocks = num_blocks;
          seed = drawn.0;
          min_size = min_size;
          max_size = max_size;
          array = blkp + 8 * entries;
          blksize = blksize + 4 * entries;
          asize = nperthread;
          c_allocs = 0;
          c_frees = 0;
          c_threads = 0;
          finished = false;
          rgen = lran2_init old (pos drawn.0);
        },
        drawn.1,
      )

-- The new block `q` of `size` bytes becomes entry `victim`, and is written to.
unfoldable pub keep_block : (array blksize victim q size : ℕ) → Cmd (Unit {0})
keep_block array blksize victim q size = do
  store_word (array + 8 * victim) q
  store_int (blksize + 4 * victim) size
  r ← load_word (array + 8 * victim)
  assert (not (r == 0))
  store 1 r 97
  load 1 r
  store 1 (r + 1) 98

module _ (h : Heap) where
  -- One round of `exercise_heap`, without the test of `stopflag`: a random block is freed, allocated
  -- again and written to.
  unfoldable pub exercise_one : ThreadData → Cmd ThreadData
  exercise_one t = do
    let drawn = lran2 t.rgen
    victim ← rem drawn.0 t.asize
    p ← load_word (t.array + 8 * victim)
    free h p
    let sized = blk_size t.min_size t.max_size drawn.1
    q ← malloc h sized.0
    keep_block t.array t.blksize victim q sized.0
    pure (record t {
      rgen = sized.1;
      c_frees = add_size t.c_frees 1;
      c_allocs = add_size t.c_allocs 1;
    })

  -- The loop, with what each test of `stopflag` reads.
  unfoldable pub exercise_loop : ℕ → (ℕ → Bool) → ThreadData → Cmd ThreadData
  exercise_loop zero stopflag t = pure t
  exercise_loop (suc n) stopflag t = do
    t' ← exercise_one t
    let rest = exercise_loop n (λ i. stopflag (suc i)) t'
    if stopflag 0 then pure t' else rest

  -- `exercise_heap`: the thread's data afterwards, and whether it has started another thread on them.
  -- `started` and `ended` are what its first and its last test of `stopflag` read.
  unfoldable pub exercise_heap :
      (started : Bool) (stopflag : ℕ → Bool) (ended : Bool) → ThreadData → Cmd (ThreadData × Bool)
  exercise_heap started stopflag ended t = if started then pure (t, false) else (do
    t' ←
        exercise_loop t.num_blocks stopflag
          (record t { finished = false; c_threads = t.c_threads + 1 })
    pure (record t' { finished = true }, not ended))
