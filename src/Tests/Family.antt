-- ===== src/Tests/Family.antt =====
-- The theorems about the malloc family at the states of a run.
use nuaf.Prelude.{◌+◌, ◌*◌, ◌^◌, ◌≡◌, refl, arith, leb, if◌then◌else◌}
use nuaf.Process.{pure}
use nuaf.Process.Ensures.{Ensures}
use nuaf.Freelist.{block_type_of}
use nuaf.Safety.Small.{NoPage, Refusal}
use nuaf.Safety.Free.{Freed}
use nuaf.Safety.Start.{nobody}
use nuaf.Wrapper.{nuaf_heap, zeroed_malloc, calloc, realloc}
use nuaf.Wrapper.Calloc.{calloc_lem}
use nuaf.Wrapper.Realloc.{realloc-Freed}
use nuaf.Wrapper.Resize.{IsMoved, IsKept, realloc-IsMoved, realloc-IsKept}
use nuaf.Wrapper.Zeroed.{Cleared, calloc-Cleared}
use nuaf.Tests.Kernel.{granting, granting-IsLawful, granting-Remaps}
use nuaf.Tests.States.{runs, initial, holding, no_getcwd}
use nuaf.Tests.Theorems.{initial-Inv, holding-Inv, holder, object-Received}

calloc_lem_example : calloc (nuaf_heap granting no_getcwd) (2 ^ 33) (2 ^ 33 + 1) ≡ (
    if leb (2 ^ 64) (2 ^ 33 * (2 ^ 33 + 1))
    then pure 0
    else zeroed_malloc (nuaf_heap granting no_getcwd) (2 ^ 33 * (2 ^ 33 + 1)))
calloc_lem_example =
    calloc_lem (nuaf_heap granting no_getcwd) (2 ^ 33) (2 ^ 33 + 1) (omega arith) (omega arith)

calloc-Cleared_example :
    Ensures
      (NoPage granting initial (block_type_of 21))
      (Cleared nobody initial 21)
      (calloc (nuaf_heap granting no_getcwd) 3 7 initial)
unfolding runs initial
calloc-Cleared_example =
    calloc-Cleared no_getcwd 3 7 granting-IsLawful initial-Inv (omega arith) (omega arith)
      (omega arith) (omega arith) (λ e. omega arith)

realloc-Freed_example :
    Ensures ⊥
      (λ r s'. (r ≡ 0) × Freed holder object-Received.free' holding 0x100000010 0 tt s')
      (realloc (nuaf_heap granting no_getcwd) 0x100000013 (2 ^ 63) holding)
unfolding runs initial holding
realloc-Freed_example =
    realloc-Freed no_getcwd 0x100000010 0 0x100000013 (2 ^ 63) granting-IsLawful holding-Inv
      (omega arith) refl (omega arith) (omega arith) refl (omega arith) (omega arith)

realloc-IsMoved_example :
    Ensures
      (Refusal granting)
      (IsMoved holder holding 0x100000010 0 100)
      (realloc (nuaf_heap granting no_getcwd) 0x100000010 100 holding)
unfolding runs initial holding block_type_of
realloc-IsMoved_example =
    realloc-IsMoved no_getcwd 0x100000010 0 100 granting-IsLawful granting-Remaps holding-Inv
      (omega arith) refl (omega arith) (omega arith) (λ e. omega arith) (omega arith)

realloc-IsKept_example :
    Ensures
      (Refusal granting)
      (IsKept holder holding 0x100000010 0)
      (realloc (nuaf_heap granting no_getcwd) 0x100000010 12 holding)
unfolding runs initial holding block_type_of
realloc-IsKept_example =
    realloc-IsKept no_getcwd 0x100000010 0 12 granting-IsLawful granting-Remaps holding-Inv
      (omega arith) refl (omega arith) (omega arith) (λ e. omega arith) refl
