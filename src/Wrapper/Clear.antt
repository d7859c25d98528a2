-- ===== src/Wrapper/Clear.antt =====
-- `memset` inside an object of the program, and the block that `calloc` returns.
use nuaf.Prelude.{ℕ, zero, suc, ◌+◌, ◌%◌, ◌≤◌, ◌<◌, ◌≡◌, ◌≢◌, refl, ap, ◌∙◌, inl, List, arith}
use native.Mathlib.Decide.{ℕ_discrete}
use nuaf.Memory.{page, write}
use nuaf.Memory.Bytes.{byte-write_apart, byte-write_one}
use nuaf.System.{SamePage, SamePage-trans}
use nuaf.Process.{Process, ok}
use nuaf.Libc.{memset}
use nuaf.Freelist.{block_size}
use nuaf.Ownership.{live, Own, Inv}
use nuaf.Safety.Use.{store-Inv}

-- What a fill of `n` bytes at `x` with `c` leaves.
pub record Filled (own : Own) (free : ℕ → List ℕ) (a x c n : ℕ) (s s' : Process) : Type 0 where
  pub inv : Inv own free s'
  pub filled : (i : ℕ) → x ≤ i → i < x + n → s'.vm.byte i ≡ c % 256
  pub kept : (i : ℕ) → i < x → s'.vm.byte i ≡ s.vm.byte i
  pub others : (p : ℕ) → p ≢ page a → SamePage p s.vm s'.vm
  pub high_kept : s'.high_vaddr ≡ s.high_vaddr

-- `memset` of `n` bytes inside a small object of the program fills them and changes nothing before
-- them and no other page.
pub memset-Filled :
    {own : Own} {free : ℕ → List ℕ} {s : Process} (a b c n x : ℕ)
    → Inv own free s
    → own (page a) ≡ live a b
    → a ≤ x
    → x + n ≤ a + block_size b
    → (s' : Process) × (memset x c n s ≡ ok tt s') × Filled own free a x c n s s'
unfolding memset
memset-Filled {s} a b c zero x inv now lo hi = (
  s,
  refl,
  record {
    inv = inv;
    filled = λ i p q. absurd (omega arith);
    kept = λ i p. refl;
    others = λ p ne. record { mapped = refl; bytes = λ i e. refl };
    high_kept = refl;
  },
)
memset-Filled {s} a b c (suc n) x inv now lo hi =
    let (s1, run1, inv1, others1, state) =
      store-Inv a b 1 x (c % 256) inv now lo (omega arith) (omega arith) in
    let (s2, run2, rest) =
      memset-Filled {s = s1} a b c n (x + 1) inv1 now (omega arith) (omega arith) in
    (
      s2,
      rw run1 run2,
      record {
        inv = rest.inv;
        filled = λ i p q. elim (ℕ_discrete i x) [
          | yes at ↦ rw at (rest.kept x (omega arith) ∙ byte_at x state)
          | no later ↦ rest.filled i (omega arith) (omega arith)
        ];
        kept = λ i p. rest.kept i (omega arith) ∙ byte_before i p state;
        others = λ p ne. SamePage-trans (others1 p ne) (rest.others p ne);
        high_kept = rest.high_kept ∙ ap (λ (r : Process). r.high_vaddr) state;
      },
    )
  where
    byte_at :
        (x : ℕ) {s1 : Process}
        → s1 ≡ record s { vm = write 1 x (c % 256) s.vm }
        → s1.vm.byte x ≡ c % 256
    byte_at x e =
        ap (λ (r : Process). r.vm.byte x) e ∙ byte-write_one x (c % 256) s.vm ∙ (omega arith)

    byte_before :
        (i : ℕ) {s1 : Process}
        → i < x
        → s1 ≡ record s { vm = write 1 x (c % 256) s.vm }
        → s1.vm.byte i ≡ s.vm.byte i
    byte_before i p e =
        ap (λ (r : Process). r.vm.byte i) e ∙ byte-write_apart 1 x (c % 256) s.vm i (inl p)
