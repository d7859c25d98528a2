-- ===== src/Clients/Barrier.antt =====
-- CMA_benchmarks/linux-scalability/ptbarrier.h: the barrier, and the threads that go through it. What
-- a thread does between pthread_mutex_lock and the next unlock or wait is one step.
pub mod Rounds
use nuaf.Prelude.{ℕ, ◌+◌, ◌-◌, ◌<◌, ◌≡◌, Bool, true, false, ◌==◌, if◌then◌else◌}

-- `pthread_barrier_t` without its mutex and its condition variable.
pub record Barrier : Type 0 where
  pub needed : ℕ
  pub called : ℕ

unfoldable pub barrier_init : ℕ → Barrier
barrier_init needed = record { needed = needed; called = 0 }

-- `pthread_barrier_wait` up to its wait or its unlock: whether the thread broadcasts, else it waits.
unfoldable pub barrier_enter : Barrier → Barrier × Bool
barrier_enter b =
    let called = b.called + 1 in
    if called == b.needed
    then (record b { called = 0 }, true)
    else (record b { called = called }, false)

-- How many threads are blocked in pthread_cond_wait, have been woken there, and have returned, and how
-- many calls there have been.
pub record Threads : Type 0 where
  pub barrier : Barrier
  pub blocked : ℕ
  pub woken : ℕ
  pub passed : ℕ
  pub arrived : ℕ

abbrev pub before : ℕ → Threads
before needed = record {
  barrier = barrier_init needed;
  blocked = 0;
  woken = 0;
  passed = 0;
  arrived = 0;
}

-- A thread enters and broadcasts, enters and blocks, or returns after it has been woken.
pub data Step (t : Threads) : Threads → Type 0 where
  broadcast :
      {b : Barrier}
      → barrier_enter t.barrier ≡ (b, true)
      → Step t (record {
        barrier = b;
        blocked = 0;
        woken = t.woken + t.blocked;
        passed = t.passed + 1;
        arrived = t.arrived + 1;
      })
  block :
      {b : Barrier}
      → barrier_enter t.barrier ≡ (b, false)
      → Step t (record t { barrier = b; blocked = t.blocked + 1; arrived = t.arrived + 1 })
  return : 0 < t.woken → Step t (record t { woken = t.woken - 1; passed = t.passed + 1 })

-- pthread_cond_wait may also return with no broadcast.
pub data SpuriousStep (t : Threads) : Threads → Type 0 where
  step : {u : Threads} → Step t u → SpuriousStep t u
  spurious :
      0 < t.blocked → SpuriousStep t (record t { blocked = t.blocked - 1; woken = t.woken + 1 })

pub data Reach (R : Threads → Threads → Type 0) (t : Threads) : Threads → Type 0 where
  here : Reach R t t
  next : {u v : Threads} → Reach R t u → R u v → Reach R t v
