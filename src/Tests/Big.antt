-- ===== src/Tests/Big.antt =====
-- The theorems about large objects at the states of a run.
use nuaf.Prelude.{refl, arith}
use nuaf.Process.Ensures.{Ensures, of_eq}
use nuaf.Allocator.{xxmalloc, xxfree}
use nuaf.Ownership.{Own, big, Inv}
use nuaf.Safety.Range.{assign_range}
use nuaf.Safety.BigMalloc.{NoPages, BigReceived, xxmalloc-BigReceived}
use nuaf.Safety.BigFree.{BigFreed, xxfree-BigFreed}
use nuaf.Safety.Start.{nobody}
use nuaf.Memory.{page}
use nuaf.Safety.Big.{pages_for}
use nuaf.System.{Outside}
use nuaf.Ownership.{retired}
use nuaf.Safety.Steps.{Client, here}
use nuaf.Safety.Trace.{no_big_reuse}
use nuaf.Tests.Kernel.{granting, granting-IsLawful}
use nuaf.Tests.States.{runs, initial, big_holding, big_released}
use nuaf.Tests.Theorems.{initial-Inv}

xxmalloc-BigReceived_example :
    Ensures
      (NoPages granting initial 5000)
      (BigReceived nobody initial 5000)
      (xxmalloc granting 5000 initial)
unfolding runs initial
xxmalloc-BigReceived_example =
    xxmalloc-BigReceived 5000 granting-IsLawful initial-Inv (omega arith) (omega arith)

pub object-BigReceived : BigReceived nobody initial 5000 0xFFFF000010 big_holding
unfolding runs initial big_holding
object-BigReceived =
    of_eq (xxmalloc-BigReceived 5000 granting-IsLawful initial-Inv (omega arith) (omega arith)) refl

-- The program owns the two pages of the object.
abbrev pub big_holder : Own
big_holder = assign_range nobody 0xFFFF000 2 (big 0xFFFF000 2)

pub big_holding-Inv : Inv big_holder object-BigReceived.free' big_holding
unfolding runs initial
big_holding-Inv = object-BigReceived.inv

xxfree-BigFreed_example :
    Ensures ⊥
      (BigFreed big_holder big_holding 0xFFFF000 2)
      (xxfree granting 0xFFFF001004 big_holding)
unfolding runs initial big_holding
xxfree-BigFreed_example =
    xxfree-BigFreed 0xFFFF000 2 0xFFFF001004 granting-IsLawful big_holding-Inv refl
      (omega arith, omega arith) refl

object-BigFreed : BigFreed big_holder big_holding 0xFFFF000 2 tt big_released
unfolding runs initial big_holding big_released
object-BigFreed =
    of_eq
      (xxfree-BigFreed 0xFFFF000 2 0xFFFF001004 granting-IsLawful big_holding-Inv refl
        (omega arith, omega arith) refl)
      refl

abbrev big_freed_client : Client
big_freed_client = record {
  own = assign_range big_holder 0xFFFF000 2 retired;
  process = big_released;
}

no_big_reuse_example : Outside (page 0xFFFF002010) (pages_for 3000) 0xFFFF001
unfolding runs initial big_holding big_released
no_big_reuse_example =
    no_big_reuse granting-IsLawful {c = big_freed_client} {d = big_freed_client} 0xFFFF001 3000
      0xFFFF002010 (object-BigFreed.free', object-BigFreed.inv) refl here (omega arith)
      (omega arith) refl
