-- ===== src/Threads/Turns.antt =====
-- Every step of a thread, from any place where it stands.
use nuaf.Prelude.{
  ◌⊎◌, refl, ℕ, ◌+◌, ◌-◌, ◌*◌, ◌/◌, ◌≤◌, ◌<◌, ◌≡◌, ◌≢◌, inl, inr, true, false, Bool-cases, ltb,
  arith, ◌==◌,
}
use nuaf.Memory.{page}
use nuaf.Words.{add_size}
use nuaf.System.{System, IsLawful}
use nuaf.Process.{Process}
use nuaf.Freelist.{block_size}
use nuaf.Allocator.{is_large}
use nuaf.Allocator.Interior.{interior-small, interior_lem}
use nuaf.Ownership.{live, big, IsObject}
use nuaf.Ownership.Frame.{block_size_bounds}
use nuaf.Safety.Assign.{IsObject-of_live}
use nuaf.Safety.Malloc.{ensure_init_ready}
use nuaf.Safety.Walk.{head, walk_interior}
use nuaf.Threads.{
  Pc, resting, malloc_start, malloc_lock, malloc_pop, malloc_unlock, big_lock, big_map, big_unlock,
  big_header, free_start, free_lock, free_move, free_unlock, free_unmap, both_first, both_second,
  both_held, both_rest, find_object, advance,
}
use nuaf.Threads.World.{World, Freeable, Granted}
use nuaf.Threads.Safe.{IsSafe}
use nuaf.Threads.Outcome.{Outcome, Refused, Waits, Good, known}
use nuaf.Threads.Locking.{Same, look, take_g_m, give_g_m, take_g_big_obj_m, give_g_big_obj_m}
use nuaf.Threads.Small.{pop-Outcome, move-Outcome}
use nuaf.Threads.Large.{map-Outcome, header-Outcome, unmap-Outcome}

module _ {k : System} (law : IsLawful k) (w : World) (safe : IsSafe w) (t : ℕ) where
  abbrev s : Process
  s = w.process

  module _ {R W : Type 0} (q : ℕ) (at : w.pc t ≡ free_start q) where
    find_small :
        (b : ℕ) (some : q ≢ 0)
        → w.own (page (w.target t)) ≡ live (w.target t) b
        → w.target t ≤ q
        → q < w.target t + block_size b
        → Outcome R W (Same w t) (find_object q s)
    unfolding find_object
    find_small b some now lo hi =
        let a = w.target t in
        let o : IsObject s.vm (page a) a b =
          IsObject-of_live (w.own (page a)) (safe.layout.holds (page a)) now in
        let (usable, start) = interior_lem a b q s o lo hi in
        let not_null : (q == 0) ≡ false = ground arith in
        let low : is_large a ≡ false =
          interior-small a b a s o (omega arith)
            (omega (arith, block_size_bounds b o.block_type)) in
        rw (not_null, usable, start, low)
          (look w safe t (free_start q) (free_lock a) at (refl, (b, now)) (λ p c. (some, c)) refl
            refl)

    find_big :
        (n : ℕ) (some : q ≢ 0)
        → w.own (page (w.target t)) ≡ big (page (w.target t)) n
        → w.target t ≡ page (w.target t) * 4096
        → page (w.target t) ≤ page q
        → page q < page (w.target t) + n
        → Outcome R W (Same w t) (find_object q s)
    unfolding find_object
    find_big n some now start lo hi =
        let f = page (w.target t) in
        let positive : 0 < n = omega arith in
        let o = head safe.layout f n now positive in
        let (usable, begin) = walk_interior safe.layout f n now positive q (lo, hi) in
        let not_null : (q == 0) ≡ false = ground arith in
        let high : is_large (f * 4096) ≡ true = ground (arith, o.above, o.room) in
        rw (not_null, usable, begin (n * 4096 - 16), high)
          (rw (← start) (
            look w safe t (free_start q) (free_unmap (w.target t) (n * 4096 - 16)) at
              (n, refl, start, refl, positive, now) (λ p c. (some, c)) refl refl))

    find_null : q ≡ 0 → Outcome R W (Same w t) (find_object q s)
    unfolding find_object
    find_null z =
        let is : (q == 0) ≡ true = ground arith in
        rw is (look w safe t (free_start q) (resting 0) at tt (λ p c. absurd c) refl refl)

    find-Outcome : Outcome R W (Same w t) (find_object q s)
    find-Outcome = found (known w safe t at)
      where
        found :
            (q ≡ 0) ⊎ ((q ≢ 0) × Freeable w.own (w.target t) q)
            → Outcome R W (Same w t) (find_object q s)
        found (inl z) = find_null z
        found (inr (some, inl (b, now, lo, hi))) = find_small b some now lo hi
        found (inr (some, inr (n, now, start, inside))) =
            find_big n some now start inside.0 inside.1

  start-Outcome :
      {R W : Type 0} (size : ℕ)
      → w.pc t ≡ malloc_start size
      → Outcome R W (Same w t) (advance k (malloc_start size) s)
  unfolding advance
  start-Outcome size at = elim (Bool-cases (ltb 2048 size)) [
    | inl large ↦
        rw (ensure_init_ready k s safe.layout.ready, large)
          (look w safe t (malloc_start size) (big_lock (add_size size 16 / 4096 + 1)) at
            (omega arith) (λ p c. c) refl refl)
    | inr small ↦
        let fits : size ≤ 2048 = ground arith in
        rw (ensure_init_ready k s safe.layout.ready, small)
          (look w safe t (malloc_start size) (malloc_lock size) at fits (λ p c. c) refl refl)
  ]

  -- The step of a thread from each place, in a safe state of all threads.
  pub advance-Outcome :
      (pc : Pc)
      → w.pc t ≡ pc
      → Granted k w.own s pc
      → Outcome (Refused k s pc) (Waits pc s) (Good w t pc) (advance k pc s)
  unfolding advance
  advance-Outcome (resting r) at g =
      look w safe t (resting r) (resting r) at tt (λ p c. c) refl refl
  advance-Outcome (malloc_start size) at g = start-Outcome size at
  advance-Outcome (malloc_lock size) at g =
      take_g_m w safe t (malloc_lock size) (malloc_pop size) at (known w safe t at) (λ p c. c) refl
        refl (λ up. up)
  advance-Outcome (malloc_pop size) at g = pop-Outcome law w safe t size at g.0 g.1
  advance-Outcome (malloc_unlock a) at g =
      give_g_m w safe t (malloc_unlock a) (resting a) at tt (λ p c. c) refl refl refl
  advance-Outcome (big_lock n) at g =
      take_g_big_obj_m w safe t (big_lock n) (big_map n) at (known w safe t at) (λ p c. c) refl refl
        (λ up. up)
  advance-Outcome (big_map n) at g = map-Outcome law w safe t n at g
  advance-Outcome (big_unlock v n) at g =
      give_g_big_obj_m w safe t (big_unlock v n) (big_header v n) at (known w safe t at) (λ p c. c)
        refl refl refl
  advance-Outcome (big_header v n) at g = header-Outcome law w safe t v n at
  advance-Outcome (free_start q) at g =
      rw (ensure_init_ready k s safe.layout.ready) (find-Outcome q at)
  advance-Outcome (free_lock a) at g =
      take_g_m w safe t (free_lock a) (free_move a) at (known w safe t at) (λ p c. c) refl refl
        (λ up. up)
  advance-Outcome (free_move a) at (room, (v, um, moved)) =
      move-Outcome law w safe t a at room moved
  advance-Outcome free_unlock at g =
      give_g_m w safe t free_unlock (resting 0) at tt (λ p c. c) refl refl refl
  advance-Outcome (free_unmap a size) at (um, unmapped) =
      unmap-Outcome law w safe t a size at um unmapped
  advance-Outcome both_first at g =
      take_g_m w safe t both_first both_second at tt (λ p c. c) refl refl (λ up. up)
  advance-Outcome both_second at g =
      take_g_big_obj_m w safe t both_second both_held at tt (λ p c. c) refl refl (λ up. up)
  advance-Outcome both_held at g =
      give_g_m w safe t both_held both_rest at tt (λ p c. c) refl refl refl
  advance-Outcome both_rest at g =
      give_g_big_obj_m w safe t both_rest (resting 0) at tt (λ p c. c) refl refl refl
