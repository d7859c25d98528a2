-- ===== src/Clients/Larson/Loops.antt =====
-- `runloops` of larson.cpp, which `main` calls where it is built without threads.
use nuaf.Prelude.{ℕ, zero, suc, ◌+◌, ◌^◌, ltb, if◌then◌else◌}
use nuaf.Process.{undefined, Cmd, pure, ◌>>=◌}
use nuaf.Wrapper.{Heap}
use nuaf.Clients.{for_from}
use nuaf.Clients.Larson.Lran2.{Lran2}
use nuaf.Clients.Larson.Warmup.{new_block, replace_block}

module _ (h : Heap) (min_size max_size blkp blksize num_chunks : ℕ) where
  -- A round of the endless loop, with `sum_allocs`, an int.
  unfoldable pub loop_round : (sum_allocs : ℕ) → Lran2 → Cmd (ℕ × Lran2)
  loop_round sum_allocs d = do
    d' ← for_from num_chunks 0 (replace_block h min_size max_size blkp blksize num_chunks) d
    let sum = sum_allocs + num_chunks
    if ltb sum (2 ^ 31) then pure (sum, d') else (λ _. undefined)

  -- As many rounds as the clock lets run.
  unfoldable pub loop_rounds : (rounds sum_allocs : ℕ) → Lran2 → Cmd (ℕ × Lran2)
  loop_rounds zero sum_allocs d = pure (sum_allocs, d)
  loop_rounds (suc rounds) sum_allocs d =
      loop_round sum_allocs d >>= λ r. loop_rounds rounds r.0 r.1

  -- `runloops`, where `more` rounds follow the first: `sum_allocs` at the end, and the generator.
  unfoldable pub runloops : (more : ℕ) → Lran2 → Cmd (ℕ × Lran2)
  runloops more d =
      for_from num_chunks 0 (new_block h min_size max_size blkp blksize) d
      >>= loop_rounds (suc more) 0
