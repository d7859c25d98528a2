-- ===== src/System.antt =====
-- The system calls that allocator.c and freelist.c make. They are not part of this code, so they are
-- parameters: a `System` is what the kernel answers, and `IsLawful` states what the manual pages
-- promise of it. `none` is MAP_FAILED or -1; a `Bool` tells whether a call returned 0.
use nuaf.Prelude.{ℕ, ◌+◌, ◌*◌, ◌^◌, ◌≤◌, ◌<◌, ◌≡◌, ◌≢◌, ◌∙◌, ◌⊎◌, Bool, true, false, Option, some}
use nuaf.Memory.{Vm, page}

pub record System : Type 0 where
  -- mmap(addr, len, PROT_READ | PROT_WRITE, MAP_PRIVATE | MAP_FIXED, fd, offset)
  pub mmap_file : (addr len fd offset : ℕ) → Vm → Option ℕ × Vm
  -- mmap(addr, len, PROT_READ | PROT_WRITE, MAP_PRIVATE | MAP_FIXED | MAP_ANONYMOUS, 0, 0)
  pub mmap_anonymous : (addr len : ℕ) → Vm → Option ℕ × Vm
  -- mremap(old, old_len, new_len, MREMAP_FIXED | MREMAP_MAYMOVE, new)
  pub mremap : (old old_len new_len new : ℕ) → Vm → Option ℕ × Vm
  pub munmap : (addr len : ℕ) → Vm → Bool × Vm
  pub getpid : Vm → ℕ
  -- sigaction(SIGSEGV, &sa, NULL)
  pub sigaction : Vm → Bool × Vm
  -- mkstemp("/tmp/nuaf_data_XXXXXX")
  pub mkstemp : Vm → Option ℕ × Vm
  pub ftruncate : (fd len : ℕ) → Vm → Bool × Vm

-- mremap moves a mapped page of the first 2^47 bytes whenever it is asked to move it to another page
-- of them.
abbrev pub Remaps : System → Type 0
Remaps k =
    (old new : ℕ) (vm : Vm)
    → vm.mapped old ≡ true
    → old ≢ new
    → old < 2 ^ 35
    → new < 2 ^ 35
    → (v : ℕ) × (um : Vm) × (k.mremap (old * 4096) 4096 4096 (new * 4096) vm ≡ (some v, um))

-- The page number `p` is one of the `n` pages from page `first` on.
abbrev pub Within : ℕ → ℕ → ℕ → Type 0
Within first n p = (first ≤ p) × (p < first + n)

abbrev pub Outside : ℕ → ℕ → ℕ → Type 0
Outside first n p = (p < first) ⊎ (first + n ≤ p)

-- What a call leaves alone: whether page `p` is mapped, and each byte of it.
pub record SamePage (p : ℕ) (vm wm : Vm) : Type 0 where
  pub mapped : wm.mapped p ≡ vm.mapped p
  pub bytes : (a : ℕ) → page a ≡ p → wm.byte a ≡ vm.byte a

-- The frame of two calls is the frame of the one followed by the frame of the other.
pub SamePage-trans : {p : ℕ} {u v w : Vm} → SamePage p u v → SamePage p v w → SamePage p u w
SamePage-trans one two = record {
  mapped = two.mapped ∙ one.mapped;
  bytes = λ i e. two.bytes i e ∙ one.bytes i e;
}

-- A fixed mapping of `n` whole pages: it stands where it was asked for, and elsewhere nothing
-- changes.
pub record Mapped (first n : ℕ) (vm : Vm) (a : ℕ) (wm : Vm) : Type 0 where
  pub placed : a ≡ first * 4096
  pub mapped : (p : ℕ) → Within first n p → wm.mapped p ≡ true
  pub others : (p : ℕ) → Outside first n p → SamePage p vm wm

-- A fixed mapping of one page of a file, at a multiple of 4096: an access to it raises SIGBUS where it
-- lies past the end of the file.
pub record FileMapped (first fd offset : ℕ) (vm : Vm) (a : ℕ) (wm : Vm) : Type 0 where
  pub placed : a ≡ first * 4096
  pub inside : offset < vm.file_length fd → wm.mapped first ≡ true
  pub past_end : vm.file_length fd ≤ offset → wm.mapped first ≡ false
  pub others : (p : ℕ) → p ≢ first → SamePage p vm wm
  pub files : wm.file_length ≡ vm.file_length

-- A page moved from `old` to `new`; the other `n - 1` pages of the old range are given up.
pub record Moved (old n new : ℕ) (vm : Vm) (a : ℕ) (wm : Vm) : Type 0 where
  pub placed : a ≡ new * 4096
  pub arrived : wm.mapped new ≡ true
  pub moved : (i : ℕ) → i < 4096 → wm.byte (new * 4096 + i) ≡ vm.byte (old * 4096 + i)
  pub gone : (p : ℕ) → Within old n p → wm.mapped p ≡ false
  pub others : (p : ℕ) → Outside old n p → p ≢ new → SamePage p vm wm
  pub files : wm.file_length ≡ vm.file_length

pub record IsLawful (k : System) : Type 0 where
  pub ftruncate-ok :
      (fd len : ℕ) (vm : Vm) {wm : Vm}
      → k.ftruncate fd len vm ≡ (true, wm)
      → wm.file_length fd ≡ len
  pub mmap_file-ok :
      (first fd offset : ℕ) (vm : Vm) {a : ℕ} {wm : Vm}
      → k.mmap_file (first * 4096) 4096 fd offset vm ≡ (some a, wm)
      → FileMapped first fd offset vm a wm
  pub mmap_anonymous-ok :
      (first n : ℕ) (vm : Vm) {a : ℕ} {wm : Vm}
      → k.mmap_anonymous (first * 4096) (n * 4096) vm ≡ (some a, wm)
      → Mapped first n vm a wm
  -- MAP_ANONYMOUS: the contents are initialised to zero
  pub mmap_anonymous-zero :
      (first n : ℕ) (vm : Vm) {a : ℕ} {wm : Vm}
      → k.mmap_anonymous (first * 4096) (n * 4096) vm ≡ (some a, wm)
      → (b : ℕ) → Within first n (page b)
      → wm.byte b ≡ 0
  -- the two ranges must not overlap
  pub mremap-ok :
      (old n new : ℕ) (vm : Vm) {a : ℕ} {wm : Vm}
      → 0 < n
      → Outside old n new
      → k.mremap (old * 4096) (4096 * n) 4096 (new * 4096) vm ≡ (some a, wm)
      → Moved old n new vm a wm
  pub munmap-ok :
      (first n : ℕ) (vm : Vm) {wm : Vm}
      → k.munmap (first * 4096) (n * 4096) vm ≡ (true, wm)
      → ((p : ℕ) → Within first n p → wm.mapped p ≡ false)
        × ((p : ℕ) → Outside first n p → SamePage p vm wm)
