-- ===== src/Tests/Aligned.antt =====
-- The theorems about memalign and posix_memalign at the state of a run.
use nuaf.Prelude.{◌+◌, ◌*◌, ◌<◌, ◌^◌, arith}
use nuaf.Prelude.Powers.{below_eight}
use nuaf.Memory.{page}
use nuaf.Safety.Files.{HasPages}
use nuaf.Process.Ensures.{Ensures}
use nuaf.Safety.Small.{Refusal}
use nuaf.Wrapper.{nuaf_heap, memalign, posix_memalign}
use nuaf.Wrapper.Aligned.{IsAligned, memalign-IsAligned}
use nuaf.Wrapper.PosixAligned.{Answered, posix_memalign-Answered}
use nuaf.Tests.Kernel.{granting, granting-IsLawful, granting-Remaps}
use nuaf.Tests.States.{runs, initial, holding, no_getcwd}
use nuaf.Tests.Theorems.{holding-Inv, holder}

holding-HasPages : HasPages 8 holding
unfolding runs initial holding
holding-HasPages =
    below_eight
      (λ b.
        (page (holding.g_flsts b).high_canonical_addr + 8) * 4096
        < holding.vm.file_length holding.data_fd)
      (omega arith) (omega arith) (omega arith) (omega arith) (omega arith) (omega arith)
      (omega arith) (omega arith)

memalign-IsAligned_example :
    Ensures
      (Refusal granting)
      (IsAligned holder holding (2 ^ 6) 100)
      (memalign (nuaf_heap granting no_getcwd) (2 ^ 6) 100 holding)
unfolding runs initial holding
memalign-IsAligned_example =
    memalign-IsAligned no_getcwd 100 granting-IsLawful granting-Remaps holding-Inv 6 (omega arith)
      (omega arith) holding-HasPages

posix_memalign-Answered_example :
    Ensures
      (Refusal granting)
      (Answered holder holding 64 100)
      (posix_memalign (nuaf_heap granting no_getcwd) 64 100 holding)
unfolding runs initial holding
posix_memalign-Answered_example =
    posix_memalign-Answered no_getcwd 64 100 granting-IsLawful granting-Remaps holding-Inv
      (omega arith) (omega arith) holding-HasPages
