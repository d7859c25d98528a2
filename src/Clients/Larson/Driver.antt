-- ===== src/Clients/Larson/Driver.antt =====
-- `main` and `runthreads` of larson.cpp: the options, the blocks and the data that the threads of a
-- round start from, and what is added up when they have ended. The options are numbers that an int
-- holds and that are not negative; a product of two of them that an int does not hold is undefined.
pub mod Blocks
pub mod Bounds
use nuaf.Prelude.{ℕ, zero, suc, ◌+◌, ◌-◌, ◌*◌, List, [], ◌∷◌, ltb, if◌then◌else◌}
use nuaf.Prelude.Int.{pos}
use nuaf.Words.{add_size}
use nuaf.Process.{exit, Cmd, pure, ◌>>=◌, ◌>>◌}
use nuaf.Wrapper.{Heap}
use nuaf.Clients.{in_int}
use nuaf.Clients.Larson.Lran2.{Lran2, lran2_init}
use nuaf.Clients.Larson.Warmup.{warmup}
use nuaf.Clients.Larson.Threads.{ThreadData, setup_thread}

-- MAX_BLOCKS
abbrev pub max_blocks : ℕ
max_blocks = 20000000

-- The local variables of `main`, with the globals min_size and max_size.
pub record Options : Type 0 where
  pub sleep_cnt : ℕ
  pub min_size : ℕ
  pub max_size : ℕ
  pub min_threads : ℕ
  pub max_threads : ℕ
  pub chperthread : ℕ
  pub num_rounds : ℕ
  pub num_chunks : ℕ
  pub seed : ℕ

-- With more than seven arguments: `argument i` is atoi(argv[i]).
unfoldable pub from_arguments : (argument : ℕ → ℕ) → Options
from_arguments argument = record {
  sleep_cnt = argument 1;
  min_size = argument 2;
  max_size = argument 3;
  min_threads = argument 7;
  max_threads = argument 7;
  chperthread = argument 4;
  num_rounds = argument 5;
  num_chunks = 10000;
  seed = argument 6;
}

-- Otherwise: `answer i` is the number that scanf reads at place `i`, from 0.
unfoldable pub from_prompts : (answer : ℕ → ℕ) → Cmd Options
from_prompts answer = do
  num_chunks ← in_int (answer 4 * answer 5)
  pure (record {
    sleep_cnt = answer 0;
    min_size = answer 1;
    max_size = answer 2;
    min_threads = answer 3;
    max_threads = answer 4;
    chperthread = answer 5;
    num_rounds = answer 6;
    num_chunks = num_chunks;
    seed = answer 7;
  })

-- `main` from `DoneWithInput` up to `runthreads`: the main generator.
unfoldable pub done_with_input : Options → Lran2 → Cmd Lran2
done_with_input o rgen =
    if ltb max_blocks o.num_chunks then (λ _. exit 1) else pure (lran2_init rgen (pos o.seed))

module _ (o : Options) (blkp blksize : ℕ) where
  -- The loop that sets up `n` threads from thread `i` on. `old j` is the generator that lies in
  -- de_area[j] before.
  unfoldable pub setup_threads : (n i : ℕ) (old : ℕ → Lran2) → Lran2 → Cmd (List ThreadData × Lran2)
  setup_threads zero i old d = pure ([], d)
  setup_threads (suc n) i old d = do
    (t, d') ← setup_thread o.min_size o.max_size blkp blksize o.num_rounds o.chperthread i (old i) d
    (ts, d'') ← setup_threads n (i + 1) old d'
    pure (t ∷ ts, d'')

  -- A round of `runthreads` up to the start of its threads.
  unfoldable pub setup_round :
      Heap → (prevthreads num_threads : ℕ) (old : ℕ → Lran2) → Lran2 → Cmd (List ThreadData × Lran2)
  setup_round h prevthreads num_threads old d = do
    first ← in_int (prevthreads * o.chperthread)
    count ← in_int ((num_threads - prevthreads) * o.chperthread)
    d' ← warmup h o.min_size o.max_size (blkp + 8 * first) blksize count d
    setup_threads num_threads 0 old d'

pub record Sums : Type 0 where
  pub sum_allocs : ℕ
  pub sum_frees : ℕ
  pub sum_threads : ℕ

-- The loop that adds up the counts, from `sums` on, and resets two of them.
unfoldable pub add_up : List ThreadData → Sums → Sums × List ThreadData
add_up [] sums = (sums, [])
add_up (t ∷ ts) sums =
    let (sums', ts') = add_up ts (record {
      sum_allocs = add_size sums.sum_allocs t.c_allocs;
      sum_frees = add_size sums.sum_frees t.c_frees;
      sum_threads = sums.sum_threads + t.c_threads;
    }) in
    (sums', record t { c_allocs = 0; c_frees = 0 } ∷ ts')
