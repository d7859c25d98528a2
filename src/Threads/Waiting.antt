-- ===== src/Threads/Waiting.antt =====
-- Which mutex a thread waits for, and that those who hold one do not wait for it.
use nuaf.Prelude.{◌≡◌, ◌⊎◌, inl, inr, true, false}
use nuaf.Process.{Process, Run, blocked}
use nuaf.Threads.{
  Pc, malloc_lock, big_lock, free_lock, both_first, both_second, holds_g_m, holds_g_big_obj_m,
}
use nuaf.Threads.Outcome.{Outcome, goes, ends, waits, Waits}

pub waited :
    {R W : Type 0} {P : Pc → Process → Type 0} {r : Run Pc} → Outcome R W P r → r ≡ blocked → W
waited (goes p) e = absurd (cc)
waited (ends why) e = absurd (cc)
waited (waits why) e = why

-- A thread that waits waits for one of the two mutexes, and one of them only.
pub wanted : (pc : Pc) (s : Process) → Waits pc s → (s.g_m ≡ true) ⊎ (s.g_big_obj_m ≡ true)
wanted (malloc_lock size) s up = inl up
wanted (free_lock a) s up = inl up
wanted both_first s up = inl up
wanted (big_lock n) s up = inr up
wanted both_second s up = inr up
wanted pc s never = absurd never

pub big_holder_runs : (pc : Pc) (s : Process) → holds_g_big_obj_m pc ≡ true → Waits pc s → ⊥
big_holder_runs (malloc_lock size) s holds up = cc holds
big_holder_runs (free_lock a) s holds up = cc holds
big_holder_runs both_first s holds up = cc holds
big_holder_runs (big_lock n) s holds up = cc holds
big_holder_runs both_second s holds up = cc holds
big_holder_runs pc s holds never = never

pub holder_runs :
    (pc : Pc) (s : Process) → holds_g_m pc ≡ true → s.g_big_obj_m ≡ false → Waits pc s → ⊥
holder_runs (malloc_lock size) s holds down up = cc holds
holder_runs (free_lock a) s holds down up = cc holds
holder_runs both_first s holds down up = cc holds
holder_runs (big_lock n) s holds down up = cc (up, down)
holder_runs both_second s holds down up = cc (up, down)
holder_runs pc s holds down never = never
