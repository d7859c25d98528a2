-- ===== src/Tests/Kernel.antt =====
-- A kernel that grants every call, and the proof that it keeps what the manual pages promise.
use nuaf.Prelude.{
  ℕ, ◌+◌, ◌-◌, ◌*◌, ◌/◌, ◌<◌, ◌≡◌, refl, inl, inr, Bool-cases, ap, Bool, true, false, ◌&&◌, Option,
  some, arith, ltb, leb, ◌==◌, if◌then◌else◌,
}
use mathlib.Core.Path.{subst, subst₂, subst₃}
use nuaf.Memory.{Vm, page}
use nuaf.System.{Remaps, System, Within, Outside, SamePage, Mapped, Moved, FileMapped, IsLawful}

abbrev within : ℕ → ℕ → ℕ → Bool
within first n p = leb first p && ltb p (first + n)

-- Zeroed pages at `addr`.
unfoldable pub zeroed : ℕ → ℕ → Vm → Vm
zeroed first n vm = record vm {
  mapped = λ p. if within first n p then true else vm.mapped p;
  byte = λ a. if within first n (page a) then 0 else vm.byte a;
}

unfoldable pub removed : ℕ → ℕ → Vm → Vm
removed first n vm = record vm { mapped = λ p. if within first n p then false else vm.mapped p }

unfoldable pub moved : ℕ → ℕ → ℕ → Vm → Vm
moved old n new vm = record vm {
  mapped = λ p. if p == new then true else if within old n p then false else vm.mapped p;
  byte = λ a. if page a == new then vm.byte (old * 4096 + (a - new * 4096)) else vm.byte a;
}

unfoldable pub resized : ℕ → ℕ → Vm → Vm
resized fd len vm = record vm { file_length = λ f. if f == fd then len else vm.file_length f }

abbrev pub granting : System
granting = record {
  mmap_file = λ addr len fd offset vm. (
    some addr,
    if ltb offset (vm.file_length fd)
        then zeroed (addr / 4096) (len / 4096) vm
        else removed (addr / 4096) (len / 4096) vm,
  );
  mmap_anonymous = λ addr len vm. (some addr, zeroed (addr / 4096) (len / 4096) vm);
  mremap =
      λ old old_len new_len new vm. (some new, moved (old / 4096) (old_len / 4096) (new / 4096) vm);
  munmap = λ addr len vm. (true, removed (addr / 4096) (len / 4096) vm);
  getpid = λ vm. 42;
  sigaction = λ vm. (true, vm);
  mkstemp = λ vm. (some 3, vm);
  ftruncate = λ fd len vm. (true, resized fd len vm);
}

zeroed-Mapped : (first n : ℕ) (vm : Vm) → Mapped first n vm (first * 4096) (zeroed first n vm)
unfolding zeroed
zeroed-Mapped first n vm = record {
  placed = refl;
  mapped = λ p i. ground arith;
  others = λ p o. record { mapped = ground arith; bytes = λ a e. ground arith };
}

page-FileMapped :
    (first fd offset : ℕ) (vm : Vm)
    → FileMapped first fd offset vm
        (first * 4096)
        (if ltb offset (vm.file_length fd) then zeroed first 1 vm else removed first 1 vm)
unfolding zeroed removed
page-FileMapped first fd offset vm = elim (Bool-cases (ltb offset (vm.file_length fd))) [
  | inl in_file ↦ record {
    placed = refl;
    inside = λ h. rw in_file (ground arith);
    past_end = λ h. absurd (ground arith);
    others = λ p ne. rw in_file (record { mapped = ground arith; bytes = λ a e. ground arith });
    files = rw in_file refl;
  }
  | inr past ↦ record {
    placed = refl;
    inside = λ h. absurd (ground arith);
    past_end = λ h. rw past (ground arith);
    others = λ p ne. rw past (record { mapped = ground arith; bytes = λ a e. refl });
    files = rw past refl;
  }
]

resized-length : (fd len : ℕ) (vm : Vm) → (resized fd len vm).file_length fd ≡ len
unfolding resized
resized-length fd len vm = ground arith

moved-Moved :
    (old n new : ℕ) (vm : Vm)
    → 0 < n
    → Outside old n new
    → Moved old n new vm (new * 4096) (moved old n new vm)
unfolding moved
moved-Moved old n new vm pos out = record {
  placed = refl;
  arrived = ground arith;
  moved = λ i h.
      let here : (page (new * 4096 + i) == new) ≡ true = ground arith in
      rw here (
        ap vm.byte
          (let e : old * 4096 + (new * 4096 + i - new * 4096) ≡ old * 4096 + i = omega arith in e));
  gone = λ p i. ground arith;
  others = λ p o ne. record { mapped = ground arith; bytes = λ a e. ground arith };
  files = refl;
}

removed-gone :
    (first n : ℕ) (vm : Vm)
    → ((p : ℕ) → Within first n p → (removed first n vm).mapped p ≡ false)
      × ((p : ℕ) → Outside first n p → SamePage p vm (removed first n vm))
unfolding removed
removed-gone first n vm =
    (λ p i. ground arith, λ p o. record { mapped = ground arith; bytes = λ a e. refl })

granted :
    {x a : ℕ} {y wm : Vm} → ◌≡◌ {A = Option ℕ × Vm} (some x, y) (some a, wm) → (x ≡ a) × (y ≡ wm)
granted e = (cc, cc)

whole_pages : (n : ℕ) → n * 4096 / 4096 ≡ n
whole_pages n = omega arith

whole_pages' : (n : ℕ) → 4096 * n / 4096 ≡ n
whole_pages' n = omega arith

anonymous-zero :
    (first n : ℕ) (vm : Vm) (b : ℕ) → Within first n (page b) → (zeroed first n vm).byte b ≡ 0
unfolding zeroed
anonymous-zero first n vm b i = ground arith

-- The assumptions on the kernel can be met.
pub granting-IsLawful : IsLawful granting
granting-IsLawful = record {
  ftruncate-ok = λ fd len vm {wm} e.
      subst (λ (w : Vm). w.file_length fd ≡ len) (ap (λ (r : Bool × Vm). r.1) e)
        (resized-length fd len vm);
  mmap_file-ok = λ first fd offset vm {a} {wm} e.
      let (p, q) = granted e in
      subst₂ (FileMapped first fd offset vm) p
        (subst
          (λ t. (if ltb offset (vm.file_length fd) then zeroed t 1 vm else removed t 1 vm) ≡ wm)
          (whole_pages first) q)
        (page-FileMapped first fd offset vm);
  mmap_anonymous-ok = λ first n vm {a} {wm} e.
      let (p, q) = granted e in
      subst₂ (Mapped first n vm) p
        (subst₂ (λ t u. zeroed t u vm ≡ wm) (whole_pages first) (whole_pages n) q)
        (zeroed-Mapped first n vm);
  mmap_anonymous-zero = λ first n vm {a} {wm} e b i.
      subst (λ (w : Vm). w.byte b ≡ 0)
        (subst₂ (λ t u. zeroed t u vm ≡ wm) (whole_pages first) (whole_pages n) (granted e).1)
        (anonymous-zero first n vm b i);
  mremap-ok = λ old n new vm {a} {wm} pos out e.
      let (p, q) = granted e in
      subst₂ (Moved old n new vm) p
        (subst₃ (λ t u v. moved t u v vm ≡ wm) (whole_pages old) (whole_pages' n) (whole_pages new)
          q)
        (moved-Moved old n new vm pos out);
  munmap-ok = λ first n vm {wm} e.
      subst
        (λ (w : Vm).
          ((p : ℕ) → Within first n p → w.mapped p ≡ false)
          × ((p : ℕ) → Outside first n p → SamePage p vm w))
        (subst₂ (λ t u. removed t u vm ≡ wm) (whole_pages first) (whole_pages n)
          (ap (λ (r : Bool × Vm). r.1) e))
        (removed-gone first n vm);
}

pub granting-Remaps : Remaps granting
granting-Remaps old new vm m ne lo hi = (_, _, refl)
