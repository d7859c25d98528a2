-- ===== src/Safety/Files.antt =====
-- How far the freelists have been carved in the data file, and how long the file is.
use nuaf.Prelude.{ap, ◌∙◌, ◌^◌, ℕ, ◌+◌, ◌*◌, ◌≤◌, ◌<◌, ◌≡◌, arith}
use nuaf.Memory.{page, write}
use nuaf.Memory.Bytes.{file_length-write}
use nuaf.Allocator.{data_size}
use nuaf.Words.{round_down}
use nuaf.Process.{Process}

-- What is carved next for block type `b`, if its freelist is empty, lies in the data file.
abbrev pub IsBacked : ℕ → Process → Type 0
IsBacked b s =
    (s.g_flsts b).top_of_stack ≡ 0
    → round_down (s.g_flsts b).high_canonical_addr 4096 < s.vm.file_length s.data_fd

-- From where each freelist is carved next, the data file goes on for more than `n` pages.
abbrev pub HasPages : ℕ → Process → Type 0
HasPages n s =
    (b : ℕ)
    → b < 8
    → (page (s.g_flsts b).high_canonical_addr + n) * 4096 < s.vm.file_length s.data_fd

-- The data file is the same and as long as before, and each freelist is carved at most `n` pages
-- further on.
pub record IsSteady (n : ℕ) (s s' : Process) : Type 0 where
  pub same_file : s'.data_fd ≡ s.data_fd
  pub files : s'.vm.file_length ≡ s.vm.file_length
  pub carved :
      (b : ℕ)
      → b < 8
      → page (s'.g_flsts b).high_canonical_addr ≤ page (s.g_flsts b).high_canonical_addr + n

pub HasPages-IsSteady :
    (n m : ℕ) {s s' : Process} → HasPages (m + n) s → IsSteady n s s' → HasPages m s'
HasPages-IsSteady n m {s} {s'} has st b small =
    rw (st.same_file, st.files) (omega (arith, has b small, st.carved b small))

pub IsBacked-of_HasPages : (n : ℕ) (s : Process) (b : ℕ) → HasPages n s → b < 8 → IsBacked b s
unfolding round_down
IsBacked-of_HasPages n s b has small empty =
    let far : (page (s.g_flsts b).high_canonical_addr + n) * 4096 < s.vm.file_length s.data_fd =
      has b small in
    ground (arith, far)

-- The small region has not grown past `high`, and the data file, of DATA_SIZE bytes, has not been carved
-- further than eight times as far.
pub record IsWithin (high : ℕ) (s : Process) : Type 0 where
  pub low : s.high_vaddr ≤ high
  pub whole_file : s.vm.file_length s.data_fd ≡ data_size
  pub carved : (b : ℕ) → b < 8 → page (s.g_flsts b).high_canonical_addr * 4096 ≤ 8 * high

pub IsWithin-raise :
    {high high' : ℕ} {s : Process} → IsWithin high s → high ≤ high' → IsWithin high' s
IsWithin-raise w le = record {
  low = omega (arith, w.low);
  whole_file = w.whole_file;
  carved = λ b small. omega (arith, w.carved b small);
}

pub IsWithin-write :
    (w a v : ℕ) {high : ℕ} {s : Process}
    → IsWithin high s
    → IsWithin high (record s { vm = write w a v s.vm })
IsWithin-write w a v {s = s} h = record {
  low = h.low;
  whole_file = ap (λ (f : ℕ → ℕ). f s.data_fd) (file_length-write w a v s.vm) ∙ h.whole_file;
  carved = h.carved;
}

-- After a call that takes at most a page and carves at most eight pages further on.
pub IsWithin-IsSteady :
    (n : ℕ) {high : ℕ} {s s' : Process}
    → n ≤ 8
    → IsWithin high s
    → IsSteady n s s'
    → s'.high_vaddr ≤ s.high_vaddr + 4096
    → IsWithin (high + 4096) s'
IsWithin-IsSteady n {s = s} le h st grows = record {
  low = omega (arith, h.low);
  whole_file = rw st.same_file (ap (λ (f : ℕ → ℕ). f s.data_fd) st.files) ∙ h.whole_file;
  carved = λ b small. omega (arith, h.carved b small, st.carved b small);
}

-- Up to 2^37 the file does not end.
pub IsBacked-of_IsWithin :
    {high : ℕ} {s : Process} (b : ℕ) → IsWithin high s → high < 2 ^ 37 → b < 8 → IsBacked b s
unfolding round_down
IsBacked-of_IsWithin {s = s} b h room small empty =
    let c = h.carved b small in
    let len : s.vm.file_length s.data_fd ≡ data_size = h.whole_file in rw len (ground (arith, c))
