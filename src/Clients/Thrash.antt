-- ===== src/Clients/Thrash.antt =====
-- CMA_benchmarks/cache-thrash/cache-thrash.cpp: what each thread is given, and what it does.
pub mod Rounds
use nuaf.Prelude.{ℕ, ltb, if◌then◌else◌}
use nuaf.Process.{exit, Cmd, pure, ◌>>=◌, ◌>>◌}
use nuaf.Wrapper.{Heap, operator_delete}
use nuaf.Clients.{for_from, quot, new_array}
use nuaf.Clients.Scratch.{write_object}

pub record ThrashArg : Type 0 where
  pub obj_size : ℕ
  pub iterations : ℕ
  pub repetitions : ℕ

-- What `main` gives a thread, from at least four arguments: `argument i` is atoi(argv[i]).
unfoldable pub thread_arg : (argc : ℕ) (argument : ℕ → ℕ) → Cmd ThrashArg
thread_arg argc argument =
    if ltb 4 argc
    then (do
      repetitions ← quot (argument 4) (argument 1)
      pure (record { obj_size = argument 3; iterations = argument 2; repetitions = repetitions }))
    else (λ _. exit 1)

module _ (h : Heap) where
  -- One iteration: allocate an object, write into it and free it.
  unfoldable pub thrash_round : (obj_size repetitions : ℕ) → Cmd (Unit {0})
  thrash_round obj_size repetitions = do
    obj ← new_array h 1 obj_size
    write_object obj obj_size repetitions
    operator_delete h obj

  -- `worker`
  unfoldable pub thrash_worker : ThrashArg → Cmd (Unit {0})
  thrash_worker w = for_from w.iterations 0 (λ i u. thrash_round w.obj_size w.repetitions) tt
