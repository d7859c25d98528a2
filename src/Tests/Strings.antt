-- ===== src/Tests/Strings.antt =====
-- The theorems about strdup and strndup at the state of a run.
use mathlib.Core.Path.{subst}
use nuaf.Prelude.{ℕ, zero, suc, ◌+◌, ◌<◌, ◌≡◌, ◌≢◌, refl, arith}
use nuaf.Process.Ensures.{Ensures}
use nuaf.Freelist.{block_type_of}
use nuaf.Ownership.{Inv}
use nuaf.Safety.Small.{NoPage}
use nuaf.Safety.Use.{store-Inv}
use nuaf.Wrapper.{nuaf_heap, strdup, strndup}
use nuaf.Wrapper.Strndup.{IsPrefix, strndup-IsPrefix}
use nuaf.Wrapper.Strings.{IsString}
use nuaf.Wrapper.Strdup.{IsDuplicate, strdup-IsDuplicate}
use nuaf.Tests.Kernel.{granting, granting-IsLawful}
use nuaf.Tests.States.{runs, initial, holding, lettered, no_getcwd}
use nuaf.Tests.Theorems.{holding-Inv, holder, object-Received}

lettered-Inv : Inv holder object-Received.free' lettered
unfolding lettered
lettered-Inv =
    let (s', run, inv, others, e) =
      store-Inv 0x100000010 0 2 0x100000010 0x6968 holding-Inv refl (omega arith) (omega arith)
        (omega arith) in
    subst (Inv holder object-Received.free') e inv

letters : (i : ℕ) → i < 2 → lettered.vm.byte (0x100000010 + i) ≢ 0
unfolding runs initial holding lettered
letters zero lt z = let e : ◌≡◌ {A = ℕ} 104 0 = z in absurd (omega (arith, e))
letters (suc zero) lt z = let e : ◌≡◌ {A = ℕ} 105 0 = z in absurd (omega (arith, e))
letters (suc (suc i)) lt z = absurd (omega arith)

lettered-IsString : IsString 0x100000010 2 lettered
unfolding runs initial holding lettered
lettered-IsString = record {
  characters = letters;
  end = refl;
  in_page = λ i lt. omega arith;
  mapped = refl;
}

strdup-IsDuplicate_example :
    Ensures
      (NoPage granting lettered (block_type_of 3))
      (IsDuplicate holder lettered 0x100000010 2)
      (strdup (nuaf_heap granting no_getcwd) 0x100000010 lettered)
unfolding runs initial holding lettered
strdup-IsDuplicate_example =
    strdup-IsDuplicate no_getcwd 0x100000010 0 2 granting-IsLawful lettered-Inv (omega arith) refl
      lettered-IsString (omega arith) (λ e. omega arith)

strndup-IsPrefix_example :
    Ensures
      (NoPage granting lettered (block_type_of 2))
      (IsPrefix holder lettered 0x100000010 1)
      (strndup (nuaf_heap granting no_getcwd) 0x100000010 1 lettered)
unfolding runs initial holding lettered
strndup-IsPrefix_example =
    strndup-IsPrefix no_getcwd 0x100000010 0 2 1 granting-IsLawful lettered-Inv (omega arith) refl
      lettered-IsString (omega arith) (λ e. omega arith)
