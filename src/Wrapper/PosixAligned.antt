-- ===== src/Wrapper/PosixAligned.antt =====
-- `posix_memalign` for small sizes, at any alignment.
use native.Mathlib.Omega.{arith}
use mathlib.Core.Path.{subst}
use nuaf.Prelude.{
  ℕ, ◌+◌, ◌*◌, ◌^◌, ◌≤◌, ◌<◌, ◌≡◌, ◌≢◌, sym, inl, inr, Bool-cases, false, List, Option, none, some,
  ◌==◌,
}
use nuaf.Safety.Files.{HasPages}
use nuaf.System.{System, IsLawful, Remaps}
use nuaf.Process.{Process, Cmd}
use nuaf.Process.Ensures.{Ensures, returns, bind}
use nuaf.Allocator.{large_obj_vaddr_start}
use nuaf.Ownership.{Own, Inv}
use nuaf.Safety.Small.{Refusal}
use nuaf.Wrapper.{nuaf_heap, einval, is_bad_alignment, memalign, posix_memalign}
use nuaf.Wrapper.Alignment.{is_bad_alignment_lem}
use nuaf.Wrapper.Aligned.{IsAligned, IsAligned-nonzero, memalign-IsAligned}

-- The status and what was stored: EINVAL, nothing stored and nothing changed at an alignment that is no
-- power of two, and otherwise 0 with an aligned object.
pub data Answered (own : Own) (s : Process) (alignment size : ℕ)
    : ℕ × Option ℕ → Process → Type 0 where
  refused : ((e : ℕ) → alignment ≢ 2 ^ e) → Answered own s alignment size (einval, none) s
  stored :
      (e r : ℕ) (s' : Process)
      → alignment ≡ 2 ^ e
      → IsAligned own s alignment size r s'
      → Answered own s alignment size (0, some r) s'

-- A posix_memalign of a small size, in a state of the invariant, on a kernel whose mremap moves a mapped
-- page to any other page, while the small region has room for three pages, the data file has more
-- than eight pages left for every freelist and the size with twice the alignment is
-- small too, answers EINVAL with no change where the alignment is no power of two, and otherwise
-- answers 0 and stores an address as memalign returns it, never ENOMEM; it can also end the process
-- with exit(1) because mmap refused a page.
pub posix_memalign-Answered :
    {k : System} (getcwd : ℕ → ℕ → Cmd ℕ) {own : Own} {free : ℕ → List ℕ} {s : Process}
    (alignment size : ℕ)
    → IsLawful k
    → Remaps k
    → Inv own free s
    → s.high_vaddr + 8192 < large_obj_vaddr_start
    → size + 2 * alignment ≤ 2048
    → HasPages 8 s
    → Ensures
        (Refusal k)
        (Answered own s alignment size)
        (posix_memalign (nuaf_heap k getcwd) alignment size s)
unfolding posix_memalign
posix_memalign-Answered {k} getcwd {own} {free} {s} alignment size law remaps inv room fits backed =
    elim (Bool-cases (is_bad_alignment alignment)) [
      | inl bad ↦ rw bad (
          returns (
            refused λ e is.
              let good = (is_bad_alignment_lem alignment (omega arith)).1 (e, is) in
              absurd (cc (bad, good))))
      | inr good ↦
          let (e, is) = (is_bad_alignment_lem alignment (omega arith)).0 good in
          let run = memalign-IsAligned getcwd size law remaps inv e room (omega arith) backed in
          rw good (
            bind
              (subst
                (λ x.
                  Ensures (Refusal k) (IsAligned own s x size)
                    (memalign (nuaf_heap k getcwd) x size s))
                (sym is) run)
              λ r s' got.
                let not_null : (r == 0) ≡ false = ground (arith, IsAligned-nonzero got) in
                rw not_null (returns (stored e r s' is got)))
    ]
