-- ===== src/Threads/Trace.antt =====
-- What holds in every state that the threads can reach, whatever order their steps come in.
use mathlib.Core.Path.{subst}
use nuaf.Prelude.{
  refl, ℕ, ◌+◌, ◌*◌, ◌%◌, ◌≤◌, ◌<◌, ◌≡◌, ◌≢◌, ◌⊎◌, ap, ◌∙◌, inl, inr, true, false, Bool-cases,
  arith,
}
use nuaf.Memory.{page}
use nuaf.System.{System, IsLawful}
use nuaf.Process.{
  Process, Run, ok, exit, blocked, undefined, diverged, aborted, segv, load, store, and_then, pure,
}
use nuaf.Process.Access.{load_fault, store_fault}
use nuaf.Freelist.{block_type_of, freelist_pop}
use nuaf.Allocator.{large_obj_vaddr_start}
use nuaf.Ownership.{unused, live, idle, retired, big, assign, Holds}
use nuaf.Safety.Assign.{assign_self, assign_ne}
use nuaf.Safety.Small.{freelist_pop-Ensures, freelist_pop-IsBacked}
use nuaf.Safety.Files.{IsBacked}
use nuaf.Threads.{
  Pc, resting, malloc_pop, malloc_unlock, free_move, holds_g_m, holds_g_big_obj_m, advance,
}
use nuaf.Threads.World.{World, Granted, Reach, after, go, settle, block_type}
use nuaf.Threads.Safe.{Knows, IsSafe}
use nuaf.Threads.Outcome.{Outcome-of_Ensures, Outcome, Waits, Refused, Good}
use nuaf.Threads.Turns.{advance-Outcome}
use nuaf.Threads.Quiet.{IsQuiet, IsSafe-of_quiet}
use nuaf.Threads.Waiting.{waited, wanted, big_holder_runs, holder_runs}
use nuaf.Threads.Moves.{went, Move-IsSafe, Reach-IsSafe}

module _ {k : System} (law : IsLawful k) where
  retired_faults :
      {w w' : World} (p : ℕ)
      → IsSafe w
      → w.own p ≡ retired
      → Reach k w w'
      → (l x : ℕ) → page x ≡ p
      → 0 < l
      → x % 4096 + l ≤ 4096
      → (load l x w'.process ≡ segv x) × ((v : ℕ) → store l x v w'.process ≡ segv x)
  retired_faults {w' = w'} p safe gone r l x at pos fits =
      let (safe', kept) = Reach-IsSafe law safe r in
      let unmapped = subst (Holds w'.process.vm p) (kept p gone) (safe'.layout.holds p) in
      (
        load_fault l x p w'.process at pos fits unmapped,
        λ v. store_fault l x p w'.process at pos fits v unmapped,
      )

  -- The page that a freed object lay in is retired.
  settle-retired :
      (w : World) (t a : ℕ) (next : Pc)
      → IsSafe w
      → w.pc t ≡ free_move a
      → Granted k w.own w.process (w.pc t)
      → settle w.own w.process (w.pc t) next (page a) ≡ retired
  settle-retired w t a next safe at granted =
      let s = w.process in
      let (room, answer) = subst (Granted k w.own s) at granted in
      let (here, (b, now)) = subst (Knows w.own s (w.target t)) at (safe.knows t) in
      let fresh =
        safe.layout.unused_small (page s.high_vaddr) (omega arith) (omega (arith, room)) in
      let own1 = assign w.own (page a) retired in
      ap (λ pc. settle w.own s pc next (page a)) at
      ∙ assign_ne own1 (page s.high_vaddr)
          (idle (page s.high_vaddr * 4096 + a % 4096) (block_type (w.own (page a)))) (page a)
          (λ e. let same = ap w.own e in absurd (cc (now, fresh, same)))
      ∙ assign_self w.own (page a) retired

  fits : (w : World) (t size : ℕ) → IsSafe w → w.pc t ≡ malloc_pop size → size ≤ 2048
  fits w t size safe at = subst (Knows w.own w.process (w.target t)) at (safe.knows t)

  popped-IsBacked :
      (w : World) (size a : ℕ) {s' : Process}
      → IsSafe w
      → size ≤ 2048
      → advance k (malloc_pop size) w.process ≡ ok (malloc_unlock a) s'
      → IsBacked (block_type_of size) w.process
  unfolding advance
  popped-IsBacked w size a {s'} safe fits run = go (freelist_pop k size w.process) refl run
    where
      go :
          (r : Run ℕ)
          → freelist_pop k size w.process ≡ r
          → and_then r (λ x. pure (malloc_unlock x)) ≡ ok (malloc_unlock a) s'
          → IsBacked (block_type_of size) w.process
      go (ok x u) popped done = freelist_pop-IsBacked law safe.layout size fits popped
      go (exit c) popped done = absurd (cc done)
      go (segv c) popped done = absurd (cc done)
      go blocked popped done = absurd (cc done)
      go undefined popped done = absurd (cc done)
      go diverged popped done = absurd (cc done)
      go aborted popped done = absurd (cc done)

  popped-before :
      (w : World) (t size a : ℕ) {s' : Process}
      → IsSafe w
      → w.pc t ≡ malloc_pop size
      → w.process.high_vaddr < large_obj_vaddr_start
      → advance k (malloc_pop size) w.process ≡ ok (malloc_unlock a) s'
      → (w.own (page a) ≡ unused) ⊎ (w.own (page a) ≡ idle a (block_type_of size))
  unfolding advance
  popped-before w t size a safe at room run =
      went
        {P = λ pc s.
          ((x : ℕ)
            → pc ≡ malloc_unlock x
            → (w.own (page x) ≡ unused) ⊎ (w.own (page x) ≡ idle x (block_type_of size)))}
        (Outcome-of_Ensures {W = ⊥} malloc_unlock
          (freelist_pop-Ensures law safe.layout room size (fits w t size safe at)
            (popped-IsBacked w size a safe (fits w t size safe at) run))
          (λ y s got x e.
            subst (λ z. (w.own (page z) ≡ unused) ⊎ (w.own (page z) ≡ idle z (block_type_of size)))
              (cc e) got.before))
        run a refl

module _ {k : System} (law : IsLawful k) {w w' : World} (quiet : IsQuiet w) (r : Reach k w w') where
  safe' : IsSafe w'
  safe' = (Reach-IsSafe law (IsSafe-of_quiet quiet) r).0

  -- From a state in which all threads rest, in whatever order their steps come, if each step before was
  -- granted what it wants, the next step of any thread that is granted what it wants goes on to a state that satisfies the invariant of all threads
  -- and in which no retired page has come back, or ends the process with exit(1) because mmap has refused
  -- memory, or waits for a mutex that is held. It meets no fault, no undefined behaviour and no endless
  -- loop.
  pub step-Outcome :
      (t : ℕ)
      → Granted k w'.own w'.process (w'.pc t)
      → Outcome
          (Refused k w'.process (w'.pc t))
          (Waits (w'.pc t) w'.process)
          (Good w' t (w'.pc t))
          (advance k (w'.pc t) w'.process)
  step-Outcome t granted = advance-Outcome law w' safe' t (w'.pc t) refl granted

  -- From a state in which all threads rest, in whatever order their steps come and if each of them was
  -- granted what it wants, two threads are never both between a lock and an unlock of the same mutex, be it `g_m` or `g_big_obj_m`.
  pub mutual_exclusion :
      (t u : ℕ)
      → ((holds_g_m (w'.pc t) ≡ true) × (holds_g_m (w'.pc u) ≡ true))
        ⊎ ((holds_g_big_obj_m (w'.pc t) ≡ true) × (holds_g_big_obj_m (w'.pc u) ≡ true))
      → t ≡ u
  mutual_exclusion t u (inl (p, q)) = safe'.g_m_guarded.exclusive t u p q
  mutual_exclusion t u (inr (p, q)) = safe'.g_big_guarded.exclusive t u p q

  Waits-of_blocked :
      ((u : ℕ) → Granted k w'.own w'.process (w'.pc u))
      → (u : ℕ) → advance k (w'.pc u) w'.process ≡ blocked
      → Waits (w'.pc u) w'.process
  Waits-of_blocked granted u = waited (step-Outcome u (granted u))

  -- From a state in which all threads rest, in whatever order their steps come, if every step
  -- before was granted what it wants and the next step of every thread is, whenever a thread waits for a mutex there is a thread in a call that does not
  -- wait.
  pub no_deadlock :
      ((u : ℕ) → Granted k w'.own w'.process (w'.pc u))
      → (t : ℕ) → advance k (w'.pc t) w'.process ≡ blocked
      → (u : ℕ) × ((x : ℕ) → w'.pc u ≢ resting x) × (advance k (w'.pc u) w'.process ≢ blocked)
  no_deadlock granted t stuck = elim (Bool-cases w'.process.g_big_obj_m) [
    | inl up ↦
        let (u, holds) = safe'.g_big_guarded.holder up in
        (
          u,
          λ x e. cc (holds, ap holds_g_big_obj_m e),
          λ e. big_holder_runs (w'.pc u) w'.process holds (Waits-of_blocked granted u e),
        )
    | inr down ↦
        let (u, holds) = safe'.g_m_guarded.holder (m_up down) in
        (
          u,
          λ x e. cc (holds, ap holds_g_m e),
          λ e. holder_runs (w'.pc u) w'.process holds down (Waits-of_blocked granted u e),
        )
  ]
    where
      m_up : w'.process.g_big_obj_m ≡ false → w'.process.g_m ≡ true
      m_up down = elim (wanted (w'.pc t) w'.process (Waits-of_blocked granted t stuck)) [
        | inl up ↦ up
        | inr up ↦ absurd (cc (up, down))
      ]

  -- From a state in which all threads rest, once any thread has moved a small object that it frees, at a
  -- step that found room in the small region and whose first mremap succeeded, in whatever order the
  -- steps of all threads come before and after and if each of them is granted what it wants, every load
  -- and every store inside the page that the object lay in raises SIGSEGV, in every thread.
  pub use_after_thread_free :
      {w'' : World} (t a : ℕ) (next : Pc) {s' : Process} (l x : ℕ)
      → w'.pc t ≡ free_move a
      → Granted k w'.own w'.process (w'.pc t)
      → advance k (w'.pc t) w'.process ≡ ok next s'
      → Reach k (after w' t next s') w''
      → page x ≡ page a
      → 0 < l
      → x % 4096 + l ≤ 4096
      → (load l x w''.process ≡ segv x) × ((v : ℕ) → store l x v w''.process ≡ segv x)
  use_after_thread_free t a next l x at granted run r' here pos fits =
      retired_faults law (page a) (Move-IsSafe law safe' (go t next granted run)).0
        (settle-retired law w' t a next safe' at granted) r' l x here pos fits

  -- From a state in which all threads rest, in whatever order the steps of all threads come and if each of
  -- them is granted what it wants, an object that freelist_pop hands to a thread while the small region
  -- has room lies in no page that was retired before, that holds a small object which the program owns,
  -- or that is part of a large object which the program owns.
  pub no_thread_reuse :
      {w'' : World} (p t size a : ℕ) {s' : Process}
      → (w'.own p ≡ retired) ⊎ ((b c : ℕ) × ((w''.own p ≡ live b c) ⊎ (w''.own p ≡ big b c)))
      → Reach k w' w''
      → w''.pc t ≡ malloc_pop size
      → w''.process.high_vaddr < large_obj_vaddr_start
      → advance k (malloc_pop size) w''.process ≡ ok (malloc_unlock a) s'
      → page a ≢ p
  no_thread_reuse {w''} p t size a taken r' at room run e =
      let (safe'', kept) = Reach-IsSafe law safe' r' in
      let same = ap w''.own e in
      let now : (w''.own p ≡ retired)
          ⊎ ((b c : ℕ) × ((w''.own p ≡ live b c) ⊎ (w''.own p ≡ big b c))) =
        elim taken [ inl gone ↦ inl (kept p gone) | inr owned ↦ inr owned ] in
      clash same now (popped-before law w'' t size a safe'' at room run)
    where
      clash :
          w''.own (page a) ≡ w''.own p
          → (w''.own p ≡ retired) ⊎ ((b c : ℕ) × ((w''.own p ≡ live b c) ⊎ (w''.own p ≡ big b c)))
          → (w''.own (page a) ≡ unused) ⊎ (w''.own (page a) ≡ idle a (block_type_of size))
          → ⊥
      clash same (inl gone) (inl new) = cc (same, gone, new)
      clash same (inl gone) (inr new) = cc (same, gone, new)
      clash same (inr (b, c, inl owned)) (inl new) = cc (same, owned, new)
      clash same (inr (b, c, inl owned)) (inr new) = cc (same, owned, new)
      clash same (inr (b, c, inr owned)) (inl new) = cc (same, owned, new)
      clash same (inr (b, c, inr owned)) (inr new) = cc (same, owned, new)
