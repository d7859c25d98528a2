-- ===== src/Threads/Small.antt =====
-- The critical sections of small objects: freelist_pop, and the move of a freed object to a fresh page.
use nuaf.Prelude.{refl, ℕ, ◌+◌, ◌*◌, ◌%◌, ◌<◌, ◌≡◌, ◌≢◌, sym, ap, ◌∙◌, ◌⊎◌, inl, inr, some, arith}
use nuaf.Memory.{Vm, page}
use nuaf.System.{System, IsLawful}
use nuaf.Process.{Process, pure, and_then}
use nuaf.Process.Ensures.{weaken_reason}
use nuaf.Freelist.{block_type_of, freelist_pop}
use nuaf.Allocator.{large_obj_vaddr_start, move_object}
use nuaf.Ownership.{unused, live, idle, retired, Own, assign, IsObject}
use nuaf.Safety.Assign.{assign_self, assign_ne, IsObject-of_live}
use nuaf.Safety.Files.{IsBacked}
use nuaf.Safety.Small.{Allocated, freelist_pop-Ensures}
use nuaf.Safety.Free.{freed_own, Released, move_object-ok, released}
use nuaf.Threads.{malloc_pop, malloc_unlock, free_move, free_unlock, update}
use nuaf.Threads.World.{World, Claims, block_type}
use nuaf.Threads.Safe.{IsSafe, Claimed, making, freeing, freeing_big, claimed, IsSafe-of_step}
use nuaf.Threads.Outcome.{
  Outcome, goes, Outcome-of_Ensures, Refused, Good, known, unshared, g_m_kept, g_big_kept,
}

-- A page that a thread counts on is not one that freelist_pop hands out.
popped-apart :
    {own : Own} {s s' : Process} {b a p : ℕ} → Allocated own s b a s' → Claimed own s p → p ≢ page a
popped-apart {own} {s} {s'} {b} {a} {p} got c e = go got.before c
  where
    object : IsObject s'.vm (page a) a b
    object =
        IsObject-of_live (assign own (page a) (live a b) (page a)) (got.layout.holds (page a))
          (assign_self own (page a) (live a b))

    same : own p ≡ own (page a)
    same = ap own e

    go : (own (page a) ≡ unused) ⊎ (own (page a) ≡ idle a b) → Claimed own s p → ⊥
    go q (making now above below) = omega (arith, object.below, e)
    go (inl u) (freeing x c now) = absurd (cc (u, now, same))
    go (inr i) (freeing x c now) = absurd (cc (i, now, same))
    go (inl u) (freeing_big n now) = absurd (cc (u, now, same))
    go (inr i) (freeing_big n now) = absurd (cc (i, now, same))

-- Nor is it one that was freed.
popped-not_retired :
    {own : Own} {s s' : Process} {b a p : ℕ} → Allocated own s b a s' → own p ≡ retired → p ≢ page a
popped-not_retired {own} got gone e = elim got.before [
  | inl u ↦ let same = ap own e in absurd (cc (u, gone, same))
  | inr i ↦ let same = ap own e in absurd (cc (i, gone, same))
]

module _ {k : System} (law : IsLawful k) (w : World) (safe : IsSafe w) (t : ℕ) where
  pub pop-Outcome :
      {W : Type 0} (size : ℕ) (at : w.pc t ≡ malloc_pop size)
      → w.process.high_vaddr < large_obj_vaddr_start
      → IsBacked (block_type_of size) w.process
      → Outcome
          (Refused k w.process (malloc_pop size))
          W
          (Good w t (malloc_pop size))
          (and_then (freelist_pop k size w.process) (λ a. pure (malloc_unlock a)))
  pop-Outcome size at room backed =
      Outcome-of_Ensures malloc_unlock
        (weaken_reason (λ no. (block_type_of size, no))
          (freelist_pop-Ensures law safe.layout room size (known w safe t at) backed))
        λ a s' got. (
          IsSafe-of_step w safe t (assign w.own (page a) (live a (block_type_of size))) s'
              (malloc_unlock a) w.target got.free' (λ u ne. refl) (omega (arith, got.next_kept))
              got.layout tt
              (λ u p ne c.
                let apart =
                  popped-apart got
                    (claimed w.own w.process (w.pc u) (w.target u) p (safe.knows u) c) in
                (
                  λ d. d,
                  (
                    assign_ne w.own (page a) (live a (block_type_of size)) p apart,
                    got.others p apart,
                  ),
                ))
              (g_m_kept w safe t at (malloc_unlock a) s' got.lock_kept refl)
              (g_big_kept w safe t at (malloc_unlock a) s' got.big_kept refl),
          λ p gone.
              assign_ne w.own (page a) (live a (block_type_of size)) p (popped-not_retired got gone)
              ∙ gone,
        )

  module _ (a : ℕ) (at : w.pc t ≡ free_move a) (room : w.process.high_vaddr < large_obj_vaddr_start)
      {v : ℕ} {um : Vm}
      (moved : k.mremap (page a * 4096) 4096 4096 w.process.high_vaddr w.process.vm
        ≡ (some v, um)) where
    abbrev s : Process
    s = w.process

    -- Neither the page that the object leaves nor the one that it moves to is of another thread.
    move-apart :
        (u p : ℕ)
        → w.own (page s.high_vaddr) ≡ unused
        → u ≢ t
        → Claims (w.pc u) (w.target u) p
        → (p ≢ page a) × (p ≢ page s.high_vaddr)
    move-apart u p fresh ne c = (
      λ e. unshared w safe t at u p ne c (e ∙ ap page (known w safe t at).0),
      λ e. other e (claimed w.own s (w.pc u) (w.target u) p (safe.knows u) c),
    )
      where
        other : p ≡ page s.high_vaddr → Claimed w.own s p → ⊥
        other e (making now above below) = omega (arith, room, e)
        other e (freeing x b now) = let same = ap w.own e in absurd (cc (now, fresh, same))
        other e (freeing_big n now) = let same = ap w.own e in absurd (cc (now, fresh, same))

    moved-Good :
        (b : ℕ) {s' : Process}
        → w.own (page a) ≡ live a b
        → Released w.own safe.free s a b s'
        → s'.g_m ≡ s.g_m
        → IsSafe (record {
          own = freed_own w.own s a b;
          process = s';
          pc = update w.pc t free_unlock;
          target = w.target;
        })
          × ((p : ℕ) → w.own p ≡ retired → freed_own w.own s a b p ≡ retired)
    moved-Good b {s'} now done flag =
        let st = idle (page s.high_vaddr * 4096 + a % 4096) b in
        let own1 = assign w.own (page a) retired in
        let kept : (p : ℕ)
            → p ≢ page a
            → p ≢ page s.high_vaddr
            → freed_own w.own s a b p ≡ w.own p =
          λ p ne ne'.
            assign_ne own1 (page s.high_vaddr) st p ne' ∙ assign_ne w.own (page a) retired p ne in
        (
          IsSafe-of_step w safe t (freed_own w.own s a b) s' free_unlock w.target done.free'
              (λ u ne. refl) (omega (arith, done.next_kept)) done.layout tt
              (λ u p ne c.
                let (one, two) = move-apart u p done.fresh_unused ne c in
                (λ d. d, (kept p one two, done.others p one two)))
              (g_m_kept w safe t at free_unlock s' flag refl)
              (g_big_kept w safe t at free_unlock s' done.big_kept refl),
          λ p gone.
              kept p (λ e. let same = ap w.own e in absurd (cc (now, gone, same)))
                (λ e.
                  let same = ap w.own e in
                  let fresh = done.fresh_unused in absurd (cc (gone, fresh, same)))
              ∙ gone,
        )

    pub move-Outcome :
        {W : Type 0}
        → Outcome ⊥ W
            (Good w t (free_move a))
            (and_then (move_object k a w.process) (λ _. pure free_unlock))
    move-Outcome =
        let (here, (c, is)) = known w safe t at in
        let b = block_type (w.own (page a)) in
        let now : w.own (page a) ≡ live a b = is ∙ ap (live a) (sym (ap block_type is)) in
        rw (move_object-ok law safe.layout room a b now moved)
          (goes (moved-Good b now (released law safe.layout room a b now moved) refl))
