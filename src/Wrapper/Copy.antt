-- ===== src/Wrapper/Copy.antt =====
-- `memcpy` from a page of the program into an object on another page.
use nuaf.Prelude.{ℕ, zero, suc, ◌+◌, ◌%◌, ◌≤◌, ◌<◌, ◌≡◌, ◌≢◌, refl, ap, ◌∙◌, inl, true, List, arith}
use nuaf.Memory.{page, read, write}
use nuaf.Memory.Bytes.{byte-write_apart, byte-write_one}
use nuaf.System.{SamePage, SamePage-trans}
use nuaf.Process.{Process, ok}
use nuaf.Process.Access.{load_ok}
use nuaf.Libc.{memcpy}
use nuaf.Freelist.{block_size}
use nuaf.Ownership.{live, Own, Inv}
use nuaf.Safety.Use.{store-Inv}

-- What a copy of `n` bytes from `src` to `x` leaves.
pub record Copied (own : Own) (free : ℕ → List ℕ) (a x src n : ℕ) (s s' : Process) : Type 0 where
  pub inv : Inv own free s'
  pub copied : (i : ℕ) → i < n → s'.vm.byte (x + i) ≡ s.vm.byte (src + i) % 256
  pub kept : (j : ℕ) → j < x → s'.vm.byte j ≡ s.vm.byte j
  pub others : (p : ℕ) → p ≢ page a → SamePage p s.vm s'.vm
  pub high_kept : s'.high_vaddr ≡ s.high_vaddr

pub read_one : (x : ℕ) (s : Process) → read 1 x s.vm ≡ s.vm.byte x
unfolding read
read_one x s = omega arith

Copied-step :
    {own : Own} {free : ℕ → List ℕ} {s s1 s2 : Process} (a src n x : ℕ) {p : ℕ}
    → ((i : ℕ) → i < suc n → page (src + i) ≡ p)
    → SamePage p s.vm s1.vm
    → s1 ≡ record s { vm = write 1 x (s.vm.byte src) s.vm }
    → Copied own free a (x + 1) (src + 1) n s1 s2
    → (i : ℕ) → i < suc n
    → s2.vm.byte (x + i) ≡ s.vm.byte (src + i) % 256
Copied-step {s} {s1} {s2} a src n x inside same e rest zero lt =
    ap s2.vm.byte (let t : x + 0 ≡ x = omega arith in t)
    ∙ rest.kept x (omega arith)
    ∙ ap (λ (r : Process). r.vm.byte x) e
    ∙ byte-write_one x (s.vm.byte src) s.vm
    ∙ ap (λ j. s.vm.byte j % 256) (let t : src ≡ src + 0 = omega arith in t)
Copied-step {s} {s1} {s2} a src n x inside same e rest (suc i) lt =
    let there : src + 1 + i ≡ src + suc i = omega arith in
    ap s2.vm.byte (let t : x + suc i ≡ x + 1 + i = omega arith in t)
    ∙ rest.copied i (omega arith)
    ∙ ap (λ c. c % 256) (same.bytes (src + 1 + i) (ap page there ∙ inside (suc i) lt))
    ∙ ap (λ j. s.vm.byte j % 256) there

-- `memcpy` of `n` bytes from page `p` into a small object of the program on another page copies them
-- and changes nothing before them and no other page.
pub memcpy-Copied :
    {own : Own} {free : ℕ → List ℕ} {s : Process} (a b p src n x : ℕ)
    → Inv own free s
    → own (page a) ≡ live a b
    → a ≤ x
    → x + n ≤ a + block_size b
    → ((i : ℕ) → i < n → page (src + i) ≡ p)
    → p ≢ page a
    → s.vm.mapped p ≡ true
    → (s' : Process) × (memcpy x src n s ≡ ok tt s') × Copied own free a x src n s s'
unfolding memcpy
memcpy-Copied {s} a b p src zero x inv now lo hi inside ne mapped = (
  s,
  refl,
  record {
    inv = inv;
    copied = λ i lt. absurd (omega arith);
    kept = λ j lt. refl;
    others = λ q ne'. record { mapped = refl; bytes = λ i e. refl };
    high_kept = refl;
  },
)
memcpy-Copied {s} a b p src (suc n) x inv now lo hi inside ne mapped =
    let at : page src ≡ p = ap page (omega arith) ∙ inside 0 (omega arith) in
    let (s1, run1, inv1, others1, state) =
      store-Inv a b 1 x (s.vm.byte src) inv now lo (omega arith) (omega arith) in
    let (s2, run2, rest) =
      memcpy-Copied {s = s1} a b p (src + 1) n (x + 1) inv1 now (omega arith) (omega arith)
        (λ i lt.
          ap page (let e : src + 1 + i ≡ src + suc i = omega arith in e)
          ∙ inside (suc i) (omega arith))
        ne ((others1 p ne).mapped ∙ mapped) in
    (
      s2,
      rw (load_ok 1 src p s at (omega arith) (omega arith) mapped, read_one src s, run1) run2,
      record {
        inv = rest.inv;
        copied = Copied-step a src n x inside (others1 p ne) state rest;
        kept = λ j lt. rest.kept j (omega arith) ∙ byte_before j lt state;
        others = λ q ne'. SamePage-trans (others1 q ne') (rest.others q ne');
        high_kept = rest.high_kept ∙ ap (λ (r : Process). r.high_vaddr) state;
      },
    )
  where
    byte_before :
        (j : ℕ) {s1 : Process}
        → j < x
        → s1 ≡ record s { vm = write 1 x (s.vm.byte src) s.vm }
        → s1.vm.byte j ≡ s.vm.byte j
    byte_before j lt e =
        ap (λ (r : Process). r.vm.byte j) e ∙ byte-write_apart 1 x (s.vm.byte src) s.vm j (inl lt)
