-- ===== src/Tests/Threads.antt =====
-- Two threads on the granting kernel, step by step, and the theorems about threads at their states.
use native.Mathlib.Decide.{ℕ_discrete}
use mathlib.Core.Path.{subst}
use nuaf.Prelude.{sym, refl, ℕ, zero, suc, ◌≡◌, ◌≢◌, inl, inr, true, arith}
use nuaf.Memory.{page}
use nuaf.Process.{blocked, segv, load, store}
use nuaf.Threads.{
  resting, malloc_start, malloc_lock, malloc_pop, free_start, free_lock, free_move, free_unlock,
  find_object, update, advance,
}
use nuaf.Threads.World.{Granted, World, Reach, after, here, later, go, begin_malloc, begin_free}
use nuaf.Threads.Outcome.{Outcome, Refused, Waits, Good}
use nuaf.Threads.Quiet.{IsQuiet}
use nuaf.Threads.Trace.{
  step-Outcome, mutual_exclusion, no_deadlock, use_after_thread_free, no_thread_reuse,
}
use nuaf.Tests.Kernel.{granting, granting-IsLawful}
use nuaf.Tests.States.{runs, initial, holding, after as ran}
use nuaf.Tests.Theorems.{holding-Inv, holder, object-Received}

-- The program owns one object, and no thread is in a call.
abbrev resting_world : World
resting_world = record { own = holder; process = holding; pc = λ t. resting 0; target = λ t. 0 }

resting_world-IsQuiet : IsQuiet resting_world
resting_world-IsQuiet = record { free = object-Received.free'; inv = holding-Inv; rest = λ t. refl }

-- Thread 0 frees the object through a pointer into it, up to its critical section.
abbrev frees : World
frees = record resting_world {
  pc = update resting_world.pc 0 (free_start 0x100000013);
  target = update resting_world.target 0 0x100000010;
}

abbrev finds : World
finds = after frees 0 (free_lock 0x100000010) holding

abbrev locks : World
locks = after finds 0 (free_move 0x100000010) (record holding { g_m = true })

-- Thread 1 comes to wait for the mutex.
abbrev asks : World
asks = record locks { pc = update locks.pc 1 (malloc_start 100) }

abbrev stands : World
stands = after asks 1 (malloc_lock 100) (record holding { g_m = true })

locks-Reach : Reach granting resting_world locks
unfolding ℕ_discrete runs initial holding advance find_object
locks-Reach =
    later
      (later
        (later here (
          begin_free 0 0x100000010 0x100000013 refl (λ e. omega (arith, e))
            (inl (0, refl, omega arith, omega arith)) (λ u c. c)))
        (go 0 (free_lock 0x100000010) tt refl))
      (go 0 (free_move 0x100000010) tt refl)

mutual_exclusion_example : ◌≡◌ {A = ℕ} 0 0
unfolding ℕ_discrete
mutual_exclusion_example =
    mutual_exclusion granting-IsLawful resting_world-IsQuiet locks-Reach 0 0 (inl (refl, refl))

stands-Reach : Reach granting resting_world stands
unfolding ℕ_discrete runs initial holding advance
stands-Reach = later (later locks-Reach (begin_malloc 1 100 refl)) (go 1 (malloc_lock 100) tt refl)

-- While thread 1 waits, thread 0 can go on.
granted : (u : ℕ) → Granted granting stands.own stands.process (stands.pc u)
unfolding ℕ_discrete runs initial holding
granted zero = (omega arith, (_, _, refl))
granted (suc zero) = tt
granted (suc (suc u)) =
    let out : stands.pc (suc (suc u)) ≡ resting 0 = ground arith in
    subst (Granted granting stands.own stands.process) (sym out) tt

no_deadlock_example :
    (u : ℕ) × ((x : ℕ) → stands.pc u ≢ resting x)
    × (advance granting (stands.pc u) stands.process ≢ blocked)
unfolding ℕ_discrete runs initial holding advance
no_deadlock_example =
    no_deadlock granting-IsLawful resting_world-IsQuiet stands-Reach granted 1 refl

-- Thread 0 moves the object.
abbrev moves : World
moves = after locks 0 free_unlock (ran (advance granting (free_move 0x100000010) locks.process))

use_after_thread_free_example :
    (load 8 0x100000010 moves.process ≡ segv 0x100000010)
    × ((v : ℕ) → store 8 0x100000010 v moves.process ≡ segv 0x100000010)
unfolding ℕ_discrete runs initial holding advance
use_after_thread_free_example =
    use_after_thread_free granting-IsLawful resting_world-IsQuiet locks-Reach 0 0x100000010
      free_unlock 8 0x100000010 refl (omega arith, (_, _, refl)) refl here refl (omega arith)
      (omega arith)

-- Thread 1 allocates while the object is owned.
abbrev wants : World
wants = record resting_world { pc = update resting_world.pc 1 (malloc_start 5) }

abbrev comes : World
comes = after wants 1 (malloc_lock 5) holding

abbrev enters : World
enters = after comes 1 (malloc_pop 5) (record holding { g_m = true })

enters-Reach : Reach granting resting_world enters
unfolding ℕ_discrete runs initial holding advance
enters-Reach =
    later (later (later here (begin_malloc 1 5 refl)) (go 1 (malloc_lock 5) tt refl))
      (go 1 (malloc_pop 5) tt refl)

no_thread_reuse_example : page 0x100001020 ≢ page 0x100000010
unfolding ℕ_discrete runs initial holding advance
no_thread_reuse_example =
    no_thread_reuse granting-IsLawful resting_world-IsQuiet here 0x100000 1 5 0x100001020
      (inr (0x100000010, 0, inl refl)) enters-Reach refl (omega arith) refl

step-Outcome_example :
    Outcome
      (Refused granting stands.process (stands.pc 0))
      (Waits (stands.pc 0) stands.process)
      (Good stands 0 (stands.pc 0))
      (advance granting (stands.pc 0) stands.process)
unfolding ℕ_discrete
step-Outcome_example =
    step-Outcome granting-IsLawful resting_world-IsQuiet stands-Reach 0 (granted 0)
