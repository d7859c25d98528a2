-- ===== src/Clients/Scalability.antt =====
-- CMA_benchmarks/linux-scalability/linux-scalability.c: the command line, what each thread does between
-- the barriers, and the time that it records.
pub mod Time
use nuaf.Prelude.{ℕ, ◌+◌, ◌-◌, ◌*◌, ◌^◌, ◌%◌, ltb, ◌||◌, ◌==◌, if◌then◌else◌}
use nuaf.Prelude.Int.{ℤ, pos, negsuc, ◌+ℤ◌, ◌-ℤ◌, ltb_ℤ}
use nuaf.Words.{to_unsigned, mul_size}
use nuaf.Process.{exit, Cmd, pure, ◌>>=◌, ◌>>◌, load_word, store_word}
use nuaf.Wrapper.{Heap, malloc, free}
use nuaf.Clients.{for_from, rem}

-- MAX_THREADS
abbrev pub max_threads : ℕ
max_threads = 50

-- `size`, `iteration_count` and `thread_count`
pub record Settings : Type 0 where
  pub size : ℕ
  pub iteration_count : ℕ
  pub thread_count : ℕ

-- The switch of `main` on `argc`: `argument i` is what atoi, and atoll for 2, makes of argv[i].
unfoldable pub settings : (argc : ℕ) (argument : ℕ → ℤ) → Cmd Settings
settings argc argument =
    let count = to_unsigned 32 (argument 3) in
    if (argc == 0) || ltb 4 argc
    then (λ _. exit 1)
    else pure (record {
      size = if ltb argc 2 then 512 else to_unsigned 64 (argument 1);
      iteration_count = if ltb argc 3 then 1000000 else to_unsigned 64 (argument 2);
      thread_count = if ltb argc 4 then 1 else if ltb max_threads count then max_threads else count;
    })

-- USECSPERSEC
abbrev pub usecs_per_sec : ℕ
usecs_per_sec = 1000000

-- `struct timeval`
pub record Timeval : Type 0 where
  pub tv_sec : ℤ
  pub tv_usec : ℤ

-- `elapsed` from `start` and `end`; `adjusted` from `null` and `elapsed`.
unfoldable pub elapsed : (start end : Timeval) → Timeval
elapsed start end =
    let sec = end.tv_sec -ℤ start.tv_sec in
    let usec = end.tv_usec -ℤ start.tv_usec in
    if ltb_ℤ usec (pos 0)
    then record { tv_sec = sec -ℤ pos 1; tv_usec = usec +ℤ pos usecs_per_sec }
    else record { tv_sec = sec; tv_usec = usec }

abbrev pub null_loop : Timeval
null_loop = record { tv_sec = pos 0; tv_usec = pos 0 }

module _ (h : Heap) where
  -- The malloc test, for fewer than 2^32 iterations: `i` is an unsigned int.
  unfoldable pub malloc_test : (request_size total_iterations : ℕ) → Cmd (Unit {0})
  malloc_test request_size total_iterations = do
    buf ← malloc h (mul_size 8 total_iterations)
    for_from total_iterations 0 (λ i u. malloc h request_size >>= λ p. store_word (buf + 8 * i) p)
        tt
    for_from total_iterations 0 (λ i u. load_word (buf + 8 * i) >>= λ p. free h p) tt

  -- `run_test` behind its first barrier, with the two answers of gettimeofday: the index into
  -- executionTime, and the time.
  unfoldable pub run_test :
      (size iteration_count thread_count tid : ℕ) (start end : Timeval) → Cmd (ℕ × Timeval)
  run_test size iteration_count thread_count tid start end = do
    malloc_test size iteration_count
    index ← rem tid thread_count
    pure (index, elapsed null_loop (elapsed start end))
