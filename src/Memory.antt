-- ===== src/Memory.antt =====
-- The address space as the C code sees it: mapped pages and bytes, and the loads and stores that
-- the pointers of allocator.c, freelist.c and wrapper.h make. Numbers are stored little-endian.
pub mod Bytes
pub mod Zero
use nuaf.Prelude.{ℕ, zero, suc, ◌+◌, ◌-◌, ◌*◌, ◌/◌, ◌%◌, Bool, ◌&&◌, ◌==◌, if◌then◌else◌}

-- `mapped` is read at page numbers and tells whether an access raises no signal, `byte` is read at
-- addresses. `file_length fd` is the length of the file behind `fd`; `sys` stands for whatever else
-- the answers of the operating system depend on.
pub record Vm : Type 0 where
  pub mapped : ℕ → Bool
  pub byte : ℕ → ℕ
  pub file_length : ℕ → ℕ
  pub sys : ℕ

-- PAGE_SIZE
abbrev pub page_size : ℕ
page_size = 4096

-- The number of the page that an address lies in.
abbrev pub page : ℕ → ℕ
page a = a / 4096

abbrev pub poke : Vm → ℕ → ℕ → Vm
poke vm a v = record vm { byte = λ b. if b == a then v else vm.byte b }

-- The number in the `w` bytes at `a`.
unfoldable pub read : ℕ → ℕ → Vm → ℕ
read zero a vm = 0
read (suc w) a vm = vm.byte a + 256 * read w (a + 1) vm

unfoldable pub write : ℕ → ℕ → ℕ → Vm → Vm
write zero a v vm = vm
write (suc w) a v vm = write w (a + 1) (v / 256) (poke vm a (v % 256))

-- Whether `w` bytes at `a`, at most a page, can be accessed without a fault.
abbrev pub accessible : ℕ → ℕ → Vm → Bool
accessible w a vm = vm.mapped (page a) && vm.mapped (page (a + w - 1))
