-- ===== src/Safety/Locks.antt =====
-- `xxmalloc_lock` and `xxmalloc_unlock`, which wrapper.h declares for use around fork.
use nuaf.Prelude.{
  ℕ, ◌+◌, ◌≤◌, ◌<◌, ◌≡◌, ◌≢◌, refl, sym, ◌∙◌, ap, true, false, List, ltb, ◌==◌, Bool-cases, inl,
  inr, arith,
}
use nuaf.Memory.{page}
use nuaf.System.{System}
use nuaf.Process.{Process, ok, blocked, lock_g_m, unlock_g_m, lock_g_big_obj_m, unlock_g_big_obj_m}
use nuaf.Freelist.{block_size}
use nuaf.Allocator.{
  map_big, xxmalloc_big, xxmalloc, free_small, xxfree, xxmalloc_lock, xxmalloc_unlock, is_large,
}
use nuaf.Allocator.Interior.{interior_lem, interior-user, interior-small}
use nuaf.Ownership.{live, Own, Inv}
use nuaf.Ownership.Frame.{block_size_bounds}
use nuaf.Safety.Assign.{IsObject-of_live}
use nuaf.Safety.Malloc.{ensure_init_ready}

-- Both mutexes are held.
abbrev pub held : Process → Process
held s = record s { g_m = true; g_big_obj_m = true }

xxmalloc-blocked :
    (k : System) (size : ℕ) (s : Process) → s.data_fd ≢ 0 → xxmalloc k size (held s) ≡ blocked
unfolding xxmalloc xxmalloc_big map_big lock_g_m lock_g_big_obj_m
xxmalloc-blocked k size s ready = elim (Bool-cases (ltb 2048 size)) [
  | inl large ↦ rw (ensure_init_ready k (held s) ready, large) refl
  | inr small ↦ rw (ensure_init_ready k (held s) ready, small) refl
]

released :
    {own : Own} {free : ℕ → List ℕ} {s : Process}
    → Inv own free s
    → xxmalloc_unlock (held s) ≡ ok tt s
unfolding xxmalloc_unlock unlock_g_m unlock_g_big_obj_m
released {s} inv =
    ap (λ b. ok tt (record s { g_m = b; g_big_obj_m = false })) (sym inv.g_m_free)
    ∙ ap (λ b. ok tt (record s { g_big_obj_m = b })) (sym inv.g_big_obj_m_free)

-- In a state of the invariant, xxmalloc_lock takes both mutexes and changes nothing else; an
-- xxmalloc of any size then waits; and xxmalloc_unlock restores the state.
pub xxmalloc_lock_lem :
    (k : System) (size : ℕ) {own : Own} {free : ℕ → List ℕ} {s : Process}
    → Inv own free s
    → (xxmalloc_lock s ≡ ok tt (held s))
      × (xxmalloc k size (held s) ≡ blocked)
      × (xxmalloc_unlock (held s) ≡ ok tt s)
unfolding xxmalloc_lock lock_g_m lock_g_big_obj_m
xxmalloc_lock_lem k size {own} {s} inv = (
  rw (inv.g_m_free, inv.g_big_obj_m_free) refl,
  xxmalloc-blocked k size s inv.layout.ready,
  released inv,
)

-- Where a state of the invariant has both mutexes taken, xxfree at any pointer into a small object
-- that the program owns waits.
pub xxfree-blocked :
    (k : System) {own : Own} {free : ℕ → List ℕ} {s : Process} (a b q : ℕ)
    → Inv own free s
    → own (page a) ≡ live a b
    → a ≤ q
    → q < a + block_size b
    → xxfree k q (held s) ≡ blocked
unfolding lock_g_m xxfree free_small
xxfree-blocked k {own} {s} a b q inv now from to =
    let o = IsObject-of_live (own (page a)) (inv.layout.holds (page a)) now in
    let (usable, start) = interior_lem a b q (held s) o from to in
    let not_null : (q == 0) ≡ false = ground (arith, interior-user a b q s o from to) in
    let small : is_large a ≡ false =
      interior-small a b a s o (omega arith) (omega (arith, block_size_bounds b o.block_type)) in
    rw (ensure_init_ready k (held s) inv.layout.ready, not_null, usable, start, small) refl
