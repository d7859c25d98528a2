-- ===== src/Allocator/Attempts.antt =====
-- How the retry loop of `xxfree` around mremap ends.
use nuaf.Prelude.{
  ℕ, zero, suc, ◌+◌, ◌*◌, ◌≤◌, ◌<◌, ◌≡◌, refl, ◌∙◌, true, false, ◌&&◌, some, none, ◌==◌, ltb, inl,
  inr, arith, Bool-cases,
}
use nuaf.Memory.{Vm}
use nuaf.Words.{page_start}
use nuaf.System.{System}
use nuaf.Process.{Process, ok, exit, lock_g_m}
use nuaf.Process.Ensures.{Ensures, returns, weaken}
use nuaf.Allocator.{map_failed, or_failed, remap_loop, move_object, free_small}
use nuaf.Allocator.Remap.{attempt, remap_loop-retry}

-- What the loop leaves: it was MAP_FAILED at the end only after the last attempt, and nothing but the
-- address space has changed.
pub record Ended (s : Process) (r : ℕ × ℕ) (s' : Process) : Type 0 where
  pub some_attempt : 2 ≤ r.1
  pub bounded : r.1 ≤ 100
  pub gave_up : r.0 ≡ map_failed → r.1 ≡ 100
  pub only_vm : s' ≡ record s { vm = s'.vm }

Ended-of_retry :
    (s : Process) (um : Vm) (r : ℕ × ℕ) (s' : Process)
    → Ended (record s { vm = um }) r s'
    → Ended s r s'
Ended-of_retry s um r s' end = record {
  some_attempt = end.some_attempt;
  bounded = end.bounded;
  gave_up = end.gave_up;
  only_vm = end.only_vm;
}

-- The loop's condition, read both ways.
more_attempts : (w i : ℕ) → ((w == map_failed) && ltb (i + 1) 100) ≡ true → i + 1 < 100
more_attempts w i e = ground arith

gives_up :
    (w i : ℕ)
    → i < 100
    → ((w == map_failed) && ltb (i + 1) 100) ≡ false
    → w ≡ map_failed
    → i + 1 ≡ 100
gives_up w i hi e at = ground arith

module _ (k : System) (vpage : ℕ) where
  -- With as many rounds as are left up to attempt 99, the loop of xxfree around mremap ends, whatever
  -- the kernel answers: its result is MAP_FAILED only after the 99th attempt, and only the address space
  -- has changed.
  pub remap_loop-Ended :
      (n i : ℕ) (s : Process)
      → 1 ≤ i
      → i < 100
      → i + n ≡ 100
      → Ensures ⊥ (Ended s) (remap_loop k n i vpage s)
  unfolding remap_loop
  remap_loop-Ended zero i s lo hi e = absurd (omega arith)
  remap_loop-Ended (suc n) i s lo hi e =
      let r = (attempt k n i vpage s) in
      elim (Bool-cases ((or_failed r.0 == map_failed) && ltb (i + 1) 100)) [
        | inl again ↦ rw again (
            weaken (Ended-of_retry s r.1) (
              remap_loop-Ended n (i + 1) (record s { vm = r.1 }) (omega arith)
                (more_attempts (or_failed r.0) i again) (omega arith)))
        | inr done ↦ rw done (
            returns (record {
              some_attempt = omega arith;
              bounded = omega arith;
              gave_up = gives_up (or_failed r.0) i hi done;
              only_vm = refl;
            }))
      ]

-- mremap refuses `m` attempts from the `i`-th on, which takes the address space from `vm` to `wm`.
abbrev pub Refused : System → ℕ → ℕ → ℕ → ℕ → Vm → Vm → Type 0
Refused k vpage high zero i vm wm = wm ≡ vm
Refused k vpage high (suc m) i vm wm =
    (um : Vm) × (k.mremap vpage (4096 * i) 4096 high vm ≡ (none, um))
    × Refused k vpage high m (i + 1) um wm

module _ (k : System) (vpage : ℕ) where
  -- Each refusal takes one round.
  pub remap_loop-Refused :
      (m n i : ℕ) (s : Process) (wm : Vm)
      → Refused k vpage s.high_vaddr m i s.vm wm
      → i + m ≤ 99
      → remap_loop k (m + n) i vpage s ≡ remap_loop k n (i + m) vpage (record s { vm = wm })
  remap_loop-Refused zero n i s wm same le =
      let rounds : 0 + n ≡ n = omega arith in
      let at : i + 0 ≡ i = omega arith in rw (rounds, at, same) refl
  remap_loop-Refused (suc m) n i s wm (um, refused, rest) le =
      let rounds : suc m + n ≡ suc (m + n) = omega arith in
      let at : i + suc m ≡ (i + 1) + m = omega arith in
      rw (rounds, at)
        (remap_loop-retry k (m + n) i vpage s refused (ground arith)
          ∙ remap_loop-Refused m n (i + 1) (record s { vm = um }) wm rest (omega arith))

last_attempt :
    (k : System) (vpage : ℕ) (s : Process) {um : Vm} {v : ℕ}
    → k.mremap vpage (4096 * 99) 4096 s.high_vaddr s.vm ≡ (some v, um)
    → remap_loop k 1 99 vpage s ≡ ok (v, 100) (record s { vm = um })
unfolding remap_loop
last_attempt k vpage s {v} moved =
    let stop : ((v == map_failed) && ltb 100 100) ≡ false = ground arith in rw (moved, stop) refl

-- If mremap refuses 98 times and then moves the page, xxfree of a small object ends the process with
-- exit(1) all the same (the part of it that runs for small objects, with the mutex free).
pub free_small-last :
    (k : System) (ptr : ℕ) (s : Process) {wm um : Vm} {v : ℕ}
    → s.g_m ≡ false
    → Refused k (page_start ptr) s.high_vaddr 98 1 s.vm wm
    → k.mremap (page_start ptr) (4096 * 99) 4096 s.high_vaddr wm ≡ (some v, um)
    → free_small k ptr s ≡ exit 1
unfolding free_small move_object lock_g_m
free_small-last k ptr s {wm} free refused moved =
    let s1 : Process = record s { g_m = true } in
    rw
      (
        free,
        remap_loop-Refused k (page_start ptr) 98 1 1 s1 wm refused (omega arith),
        last_attempt k (page_start ptr) (record s1 { vm = wm }) moved,
      )
      refl
