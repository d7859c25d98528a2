-- ===== src/Tests/Theorems.antt =====
-- The theorems about the small objects at the states of a run.
use nuaf.Prelude.{ℕ, ◌≡◌, ◌≢◌, refl, arith}
use nuaf.Memory.{page}
use nuaf.Process.{segv, load, store}
use nuaf.Process.Ensures.{Ensures, of_eq}
use nuaf.Freelist.{block_type_of}
use nuaf.Allocator.{data_size, init_mem, xxmalloc, xxfree}
use nuaf.Ownership.{live, Own, assign, Inv}
use nuaf.Safety.Files.{HasPages}
use nuaf.Safety.Small.{NoPage}
use nuaf.Safety.Malloc.{Received, xxmalloc-Received}
use nuaf.Safety.Free.{Freed, freed_own, xxfree-Freed}
use nuaf.Safety.Start.{nobody, no_objects, init_mem-Inv}
use nuaf.Safety.Fault.{xxfree-retired}
use nuaf.Safety.Steps.{Client, here}
use nuaf.Safety.Trace.{no_reuse, use_after_free}
use nuaf.Tests.Kernel.{granting, resized, granting-IsLawful}
use nuaf.Tests.States.{boot, runs, initial, holding, released}

init_mem-Inv_example :
    Ensures ⊥
      (λ _ s'.
        Inv nobody no_objects s'
        × (s'.par_ps ≡ 42)
        × (s'.num_mappings ≡ 0)
        × (s'.vm.file_length s'.data_fd ≡ data_size)
        × HasPages 0xFFFFFF8 s')
      (init_mem granting boot)
init_mem-Inv_example =
    init_mem-Inv granting boot 3 boot.vm boot.vm (resized 3 data_size boot.vm) granting-IsLawful
      (omega arith) refl refl refl refl (omega arith) refl

pub initial-Inv : Inv nobody no_objects initial
unfolding runs initial
initial-Inv =
    (of_eq {a = tt} {s = initial}
      (init_mem-Inv granting boot 3 boot.vm boot.vm (resized 3 data_size boot.vm) granting-IsLawful
        (omega arith) refl refl refl refl (omega arith) refl)
      refl).0

xxmalloc-Received_example :
    Ensures
      (NoPage granting initial (block_type_of 5))
      (Received nobody initial 5)
      (xxmalloc granting 5 initial)
unfolding runs initial
xxmalloc-Received_example =
    xxmalloc-Received 5 granting-IsLawful initial-Inv (omega arith) (omega arith) (λ e. omega arith)

pub object-Received : Received nobody initial 5 0x100000010 holding
unfolding runs initial holding
object-Received =
    of_eq
      (xxmalloc-Received 5 granting-IsLawful initial-Inv (omega arith) (omega arith)
        (λ e. omega arith))
      refl

-- The program owns the object, and nothing else.
abbrev pub holder : Own
holder = assign nobody 0x100000 (live 0x100000010 0)

pub holding-Inv : Inv holder object-Received.free' holding
unfolding runs
holding-Inv = object-Received.inv

xxfree-Freed_example :
    Ensures ⊥
      (Freed holder object-Received.free' holding 0x100000010 0)
      (xxfree granting 0x100000013 holding)
unfolding runs initial holding
xxfree-Freed_example =
    xxfree-Freed 0x100000010 0 0x100000013 granting-IsLawful holding-Inv (omega arith) refl
      (omega arith) (omega arith) refl

object-Freed : Freed holder object-Received.free' holding 0x100000010 0 tt released
unfolding runs initial holding released
object-Freed =
    of_eq
      (xxfree-Freed 0x100000010 0 0x100000013 granting-IsLawful holding-Inv (omega arith) refl
        (omega arith) (omega arith) refl)
      refl

xxfree-retired_example : xxfree granting 0x100000013 released ≡ segv 0x100000000
unfolding runs initial holding released
xxfree-retired_example =
    xxfree-retired granting 0x100000013 object-Freed.inv refl (omega arith) (omega arith)

abbrev freed_client : Client
freed_client = record { own = freed_own holder holding 0x100000010 0; process = released }

no_reuse_example : page 0x100002010 ≢ 0x100000
unfolding runs initial holding released
no_reuse_example =
    no_reuse granting-IsLawful {c = freed_client} {d = freed_client} 0x100000 100 0x100002010
      (object-Freed.free', object-Freed.inv) refl here (omega arith) (omega arith) refl

use_after_free_example :
    (load 8 0x100000010 released ≡ segv 0x100000010)
    × ((u : ℕ) → store 8 0x100000010 u released ≡ segv 0x100000010)
unfolding runs initial holding released
use_after_free_example =
    use_after_free granting-IsLawful {c = record { own = holder; process = holding }}
      {d = freed_client} 0x100000010 0 0x100000013 8 0x100000010
      (object-Received.free', holding-Inv) (omega arith) refl (omega arith) (omega arith) refl refl
      here refl (omega arith) (omega arith)
