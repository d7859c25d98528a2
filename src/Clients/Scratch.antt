-- ===== src/Clients/Scratch.antt =====
-- CMA_benchmarks/cache-scratch/cache-scratch.cpp: the objects that the threads are given, and what
-- each thread does.
use nuaf.Prelude.{ℕ, ◌+◌, ◌*◌, ◌%◌}
use nuaf.Process.{Cmd, pure, ◌>>=◌, ◌>>◌, load, load_word, store, store_word}
use nuaf.Wrapper.{Heap, operator_delete}
use nuaf.Clients.{for_from, quot, new_array}

pub record WorkerArg : Type 0 where
  pub object : ℕ
  pub obj_size : ℕ
  pub iterations : ℕ
  pub repetitions : ℕ

-- `obj[k] = (char) k`, and its read.
unfoldable pub write_byte : ℕ → ℕ → Unit {0} → Cmd (Unit {0})
write_byte obj k u = do store 1 (obj + k) (k % 256); load 1 (obj + k); pure tt

-- The two loops that write into the object.
unfoldable pub write_object : (obj obj_size repetitions : ℕ) → Cmd (Unit {0})
unfolding write_byte for_from
write_object obj obj_size repetitions =
    for_from repetitions 0 (λ j u. for_from obj_size 0 (write_byte obj) tt) tt

-- What `main` gives thread `i` of `nthreads`.
unfoldable pub scratch_arg : (objs nthreads iterations obj_size repetitions i : ℕ) → Cmd WorkerArg
scratch_arg objs nthreads iterations obj_size repetitions i = do
  object ← load_word (objs + 8 * i)
  each ← quot repetitions nthreads
  pure
      (record { object = object; obj_size = obj_size; iterations = iterations; repetitions = each })

module _ (h : Heap) where
  -- `objs` of `main`: an object for each thread.
  unfoldable pub scratch_objects : (nthreads obj_size : ℕ) → Cmd ℕ
  scratch_objects nthreads obj_size = do
    objs ← new_array h 8 nthreads
    for_from nthreads 0
        (λ i u. new_array h 1 obj_size >>= λ object. store_word (objs + 8 * i) object) tt
    pure objs

  -- One iteration: allocate an object, write into it and free it.
  unfoldable pub scratch_round : (obj_size repetitions : ℕ) → Cmd (Unit {0})
  scratch_round obj_size repetitions = do
    obj ← new_array h 1 obj_size
    write_object obj obj_size repetitions
    operator_delete h obj

  -- `worker`: free the object that the main thread allocated, then iterate.
  unfoldable pub scratch_worker : WorkerArg → Cmd (Unit {0})
  scratch_worker w = do
    operator_delete h w.object
    for_from w.iterations 0 (λ i u. scratch_round w.obj_size w.repetitions) tt
