-- ===== src/Tests/Retries.antt =====
-- The theorems about the loop around mremap, with a kernel that moves a page only at the last attempt.
use nuaf.Prelude.{
  ℕ, zero, suc, ◌+◌, ◌*◌, ◌≤◌, ◌≡◌, refl, none, some, arith, inl, inr, Bool-cases, ◌==◌,
  if◌then◌else◌, false,
}
use nuaf.Memory.{Vm}
use nuaf.System.{System, IsLawful, Within}
use nuaf.Process.{ok, exit}
use nuaf.Process.Ensures.{Ensures}
use nuaf.Allocator.{remap_loop, free_small}
use nuaf.Allocator.Attempts.{Ended, Refused, remap_loop-Ended, free_small-last}
use nuaf.Safety.Neighbours.{remap_loop-neighbours}
use nuaf.Tests.Kernel.{granting, granting-IsLawful, moved}
use nuaf.Tests.States.{holding, initial, crowded, runs}

-- Grants an old size of 99 pages only.
abbrev reluctant : System
reluctant = record granting {
  mremap = λ old old_len new_len new vm. if old_len == 405504 then (some new, vm) else (none, vm);
}

reluctant-Refused :
    (m i : ℕ) → i + m ≤ 99 → (vm : Vm) → Refused reluctant 0x100000000 0x100001000 m i vm vm
reluctant-Refused zero i le vm = refl
reluctant-Refused (suc m) i le vm =
    let small : (4096 * i == 405504) ≡ false = ground arith in
    (vm, rw small refl, reluctant-Refused m (i + 1) (omega arith) vm)

remap_loop-Ended_example : Ensures ⊥ (Ended holding) (remap_loop reluctant 99 1 0x100000000 holding)
remap_loop-Ended_example =
    remap_loop-Ended reluctant 0x100000000 99 1 holding (omega arith) (omega arith) refl

free_small-last_example : free_small reluctant 0x100000010 holding ≡ exit 1
unfolding runs initial holding
free_small-last_example =
    free_small-last reluctant 0x100000010 holding refl
      (reluctant-Refused 98 1 (omega arith) holding.vm) refl

-- Refuses to move one page alone.
abbrev second_try : System
second_try = record granting {
  mremap = λ old old_len new_len new vm.
      if old_len == 8192 then granting.mremap old old_len new_len new vm else (none, vm);
}

second_try-IsLawful : IsLawful second_try
second_try-IsLawful = record {
  ftruncate-ok = granting-IsLawful.ftruncate-ok;
  mmap_file-ok = granting-IsLawful.mmap_file-ok;
  mmap_anonymous-ok = granting-IsLawful.mmap_anonymous-ok;
  mmap_anonymous-zero = granting-IsLawful.mmap_anonymous-zero;
  mremap-ok = λ old n new vm {a} {wm} pos out e. elim (Bool-cases (4096 * n == 8192)) [
    | inl yes_two ↦ granting-IsLawful.mremap-ok old n new vm pos out (rw yes_two at e)
    | inr not_two ↦ absurd (cc (rw not_two at e))
  ];
  munmap-ok = granting-IsLawful.munmap-ok;
}

remap_loop-neighbours_example :
    (remap_loop second_try 99 1 0x100000000 crowded
      ≡ ok (0x100002000, 3) (record crowded { vm = moved 0x100000 2 0x100002 crowded.vm }))
    × ((q : ℕ) → Within 0x100000 2 q → (moved 0x100000 2 0x100002 crowded.vm).mapped q ≡ false)
unfolding runs initial holding crowded
remap_loop-neighbours_example =
    remap_loop-neighbours 0x100000 0x100002 1 crowded second_try-IsLawful refl (omega arith)
      (omega arith) (omega arith) (crowded.vm, refl, refl) refl
