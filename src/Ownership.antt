-- ===== src/Ownership.antt =====
-- Who owns each virtual page of the allocator, as a ghost beside the state of allocator.c, and the
-- invariant that ties the two together.
pub mod Frame
use nuaf.Prelude.{
  ℕ, ◌+◌, ◌-◌, ◌*◌, ◌/◌, ◌%◌, ◌^◌, ◌≤◌, ◌<◌, ◌≡◌, ◌≢◌, Bool, true, false, List, [], ◌∷◌, ◌==◌,
  if◌then◌else◌,
}
use nuaf.Memory.{Vm, page, read}
use nuaf.System.{Within}
use nuaf.Process.{Process}
use nuaf.Freelist.{block_size}
use nuaf.Freelist.Carving.{IsSlot}
use nuaf.Allocator.{large_obj_vaddr_start, large_obj_start_magic, mmap_min_addr}

-- `unused`: not handed out yet. `live a b`: holds the object at `a` of block type `b`, which the
-- program owns. `idle a b`: the allocator has moved an object that was
-- freed to `a`, and the program does not own it. `retired`: the program owned an object
-- of the page and has freed it. `big f n`: belongs to a large object of `n` pages from page `f` on.
pub data Status : Type 0 where
  unused : Status
  live : ℕ → ℕ → Status
  idle : ℕ → ℕ → Status
  retired : Status
  big : ℕ → ℕ → Status

abbrev pub Own : Type 0
Own = ℕ → Status

-- The first pages of the two regions.
abbrev pub small_first : ℕ
small_first = 0x100000

abbrev pub large_first : ℕ
large_first = 0xFFFF000

abbrev pub assign : Own → ℕ → Status → Own
assign own q st p = if p == q then st else own p

-- A small object: alone in a mapped page of the small region that begins with its block type.
pub record IsObject (vm : Vm) (p a b : ℕ) : Type 0 where
  pub above : small_first ≤ p
  pub below : p < large_first
  pub page_of : page a ≡ p
  pub block_type : b < 8
  pub behind_header : 16 ≤ a % 4096
  pub on_grid : (a % 4096 - 16) % block_size b ≡ 0
  pub in_page : a % 4096 + block_size b < 4096
  pub mapped : vm.mapped p ≡ true
  pub header : read 4 (p * 4096) vm ≡ b

-- A page of a large object: only its first page begins with the magic word, and the number of pages
-- follows that.
pub record IsBig (vm : Vm) (p f n : ℕ) : Type 0 where
  pub above : large_first ≤ f
  pub room : f + n ≤ 2 ^ 51
  pub within : Within f n p
  pub mapped : vm.mapped p ≡ true
  pub magic : read 8 (f * 4096) vm ≡ large_obj_start_magic
  pub count : read 8 (f * 4096 + 8) vm ≡ n
  pub rest : p ≢ f → read 8 (p * 4096) vm ≢ large_obj_start_magic

abbrev pub Holds : Vm → ℕ → Status → Type 0
Holds vm p unused = Unit {0}
Holds vm p (live a b) = IsObject vm p a b
Holds vm p (idle a b) = IsObject vm p a b
Holds vm p retired = vm.mapped p ≡ false
Holds vm p (big f n) = IsBig vm p f n

-- No object of the list lies in page `p`.
abbrev pub Apart : ℕ → List ℕ → Type 0
Apart p [] = Unit {0}
Apart p (a ∷ xs) = (p ≢ page a) × Apart p xs

-- The freelist of block type `b` that `top` heads threads the idle objects of the list, each in a
-- page of its own.
abbrev pub Chain : Own → Vm → ℕ → ℕ → List ℕ → Type 0
Chain own vm b top [] = top ≡ 0
Chain own vm b top (a ∷ xs) =
    (top ≡ a) × (own (page a) ≡ idle a b) × Apart (page a) xs × Chain own vm b (read 8 a vm) xs

-- The allocator has been started, the two regions have been handed out up to
-- `high_vaddr` and `large_obj_next_page`, and every page is as its status says.
pub record Layout (own : Own) (free : ℕ → List ℕ) (s : Process) : Type 0 where
  pub ready : s.data_fd ≢ 0
  pub high_aligned : s.high_vaddr % 4096 ≡ 0
  pub high_above : mmap_min_addr ≤ s.high_vaddr
  pub high_below : s.high_vaddr ≤ large_obj_vaddr_start
  pub next_aligned : s.large_obj_next_page % 4096 ≡ 0
  pub next_above : large_obj_vaddr_start ≤ s.large_obj_next_page
  pub slots : (b : ℕ) → b < 8 → IsSlot b (s.g_flsts b).high_canonical_addr
  pub chains : (b : ℕ) → b < 8 → Chain own s.vm b (s.g_flsts b).top_of_stack (free b)
  pub holds : (p : ℕ) → Holds s.vm p (own p)
  pub unused_small : (p : ℕ) → page s.high_vaddr ≤ p → p < large_first → own p ≡ unused
  pub unused_big : (p : ℕ) → page s.large_obj_next_page ≤ p → own p ≡ unused
  pub whole : (p f n : ℕ) → own p ≡ big f n → (q : ℕ) → Within f n q → own q ≡ big f n

-- Between two calls no mutex is held either.
pub record Inv (own : Own) (free : ℕ → List ℕ) (s : Process) : Type 0 where
  pub layout : Layout own free s
  pub g_m_free : s.g_m ≡ false
  pub g_big_obj_m_free : s.g_big_obj_m ≡ false

-- The mutexes are no part of the layout.
pub Layout-relock :
    {own : Own} {free : ℕ → List ℕ} {s : Process} (g h : Bool)
    → Layout own free s
    → Layout own free (record s { g_m = g; g_big_obj_m = h })
Layout-relock g h l = record {
  ready = l.ready;
  high_aligned = l.high_aligned;
  high_above = l.high_above;
  high_below = l.high_below;
  next_aligned = l.next_aligned;
  next_above = l.next_above;
  slots = l.slots;
  chains = l.chains;
  holds = l.holds;
  unused_small = l.unused_small;
  unused_big = l.unused_big;
  whole = l.whole;
}
