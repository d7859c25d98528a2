-- ===== src/Threads/Outcome.antt =====
-- How a step of a thread can end, and the steps that change no more than a mutex.
use mathlib.Core.Path.{subst}
use nuaf.Memory.{Vm}
use nuaf.Prelude.{none, ◌*◌, refl, ℕ, ◌≡◌, ◌≢◌, sym, ap, ◌∙◌, Bool, true, arith}
use nuaf.System.{System}
use nuaf.Process.{Process, Run, ok, exit, blocked, pure, and_then}
use nuaf.Process.Ensures.{Ensures, returns, exits}
use nuaf.Ownership.{retired, Layout-relock}
use nuaf.Safety.Small.{NoPage}
use nuaf.Safety.Reuse.{same_page}
use nuaf.Threads.{
  Pc, malloc_lock, malloc_pop, big_lock, big_map, free_lock, both_first, both_second, holds_g_m,
  holds_g_big_obj_m, update,
}
use nuaf.Threads.Mutex.{Guarded, guarded_keep}
use nuaf.Threads.World.{World, Claims, settle}
use nuaf.Threads.Safe.{Knows, IsSafe, Knows-kept, IsSafe-of_step}

-- The step goes on, the process ends by exit(1) for the reason `R`, or the thread waits, and `W` holds.
-- It does not fault, loop or meet undefined behaviour.
pub data Outcome (R W : Type 0) (P : Pc → Process → Type 0) : Run Pc → Type 0 where
  goes : {pc : Pc} {s : Process} → P pc s → Outcome R W P (ok pc s)
  ends : R → Outcome R W P (exit 1)
  waits : W → Outcome R W P blocked

pub Outcome-of_Ensures :
    {A : Type 0} {R W : Type 0} {Q : A → Process → Type 0} {P : Pc → Process → Type 0} {r : Run A}
    (f : A → Pc)
    → Ensures R Q r
    → ((a : A) (s : Process) → Q a s → P (f a) s)
    → Outcome R W P (and_then r (λ a. pure (f a)))
Outcome-of_Ensures f (returns q) imp = goes (imp _ _ q)
Outcome-of_Ensures f (exits why) imp = ends why

-- The mutex that the thread wants is held.
abbrev pub Waits : Pc → Process → Type 0
Waits (malloc_lock size) s = s.g_m ≡ true
Waits (free_lock ptr) s = s.g_m ≡ true
Waits both_first s = s.g_m ≡ true
Waits (big_lock n) s = s.g_big_obj_m ≡ true
Waits both_second s = s.g_big_obj_m ≡ true
Waits pc s = ⊥

-- mmap has refused memory.
abbrev pub Refused : System → Process → Pc → Type 0
Refused k s (malloc_pop size) = (b : ℕ) × NoPage k s b
Refused k s (big_map n) =
    (um : Vm) × (k.mmap_anonymous s.large_obj_next_page (n * 4096) s.vm ≡ (none, um))
Refused k s pc = ⊥

-- All threads are safe after a step of thread `t` from `pc` to `next`, and no retired page has come back.
abbrev pub Good : World → ℕ → Pc → Pc → Process → Type 0
Good w t pc next s' =
    IsSafe (record {
      own = settle w.own w.process pc next;
      process = s';
      pc = update w.pc t next;
      target = w.target;
    })
    × ((p : ℕ) → w.own p ≡ retired → settle w.own w.process pc next p ≡ retired)

module _ (w : World) (safe : IsSafe w) (t : ℕ) {pc : Pc} (at : w.pc t ≡ pc) where
  pub known : Knows w.own w.process (w.target t) pc
  known = subst (Knows w.own w.process (w.target t)) at (safe.knows t)

  -- No other thread counts on the pages of this one.
  pub unshared : (u p : ℕ) → u ≢ t → Claims (w.pc u) (w.target u) p → Claims pc (w.target t) p → ⊥
  unshared u p ne c d = safe.apart u t p ne c (subst (λ a. Claims a (w.target t) p) (sym at) d)

  -- A step that changes no flag, from a place to one with the same mutexes.
  module _ (next : Pc) (s' : Process) where
    pub g_m_kept :
        s'.g_m ≡ w.process.g_m
        → holds_g_m next ≡ holds_g_m pc
        → Guarded s'.g_m (λ u. holds_g_m (update w.pc t next u))
    g_m_kept flag same =
        subst (λ b. Guarded b (λ u. holds_g_m (update w.pc t next u))) (sym flag)
          (guarded_keep holds_g_m w.pc safe.g_m_guarded t next (same ∙ ap holds_g_m (sym at)))

    pub g_big_kept :
        s'.g_big_obj_m ≡ w.process.g_big_obj_m
        → holds_g_big_obj_m next ≡ holds_g_big_obj_m pc
        → Guarded s'.g_big_obj_m (λ u. holds_g_big_obj_m (update w.pc t next u))
    g_big_kept flag same =
        subst (λ b. Guarded b (λ u. holds_g_big_obj_m (update w.pc t next u))) (sym flag)
          (guarded_keep holds_g_big_obj_m w.pc safe.g_big_guarded t next
            (same ∙ ap holds_g_big_obj_m (sym at)))

  -- A step that leaves the pages alone, with the new flags of the mutexes.
  pub still :
      (next : Pc) (g h : Bool)
      → Knows w.own w.process (w.target t) next
      → ((p : ℕ) → Claims next (w.target t) p → Claims pc (w.target t) p)
      → Guarded g (λ u. holds_g_m (update w.pc t next u))
      → Guarded h (λ u. holds_g_big_obj_m (update w.pc t next u))
      → IsSafe (record {
        own = w.own;
        process = record (w.process) { g_m = g; g_big_obj_m = h };
        pc = update w.pc t next;
        target = w.target;
      })
  still next g h known' less g_m g_big =
      let s' : Process = record (w.process) { g_m = g; g_big_obj_m = h } in
      IsSafe-of_step w safe t w.own s' next w.target safe.free (λ u ne. refl) (omega arith)
        (Layout-relock g h safe.layout)
        (Knows-kept w.own w.own w.process s' (omega arith) next (w.target t)
          (λ p c. (refl, same_page w.process.vm p)) known')
        (λ u p ne c. (λ d. unshared u p ne c (less p d), (refl, same_page w.process.vm p))) g_m
        g_big
