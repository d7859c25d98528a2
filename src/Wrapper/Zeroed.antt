-- ===== src/Wrapper/Zeroed.antt =====
-- `calloc` on the allocator of this repository, for small blocks.
use nuaf.Prelude.{
  ℕ, ◌+◌, ◌*◌, ◌/◌, ◌^◌, ◌≤◌, ◌<◌, ◌≡◌, ◌≢◌, ◌⊎◌, true, false, List, arith, leb, ◌==◌,
}
use nuaf.Memory.{page}
use nuaf.System.{System, IsLawful, SamePage, SamePage-trans}
use nuaf.Process.{Process, Cmd}
use nuaf.Process.Ensures.{Ensures, returns, bind}
use nuaf.Freelist.{block_size, block_type_of}
use nuaf.Allocator.{large_obj_vaddr_start}
use nuaf.Ownership.{unused, live, idle, Own, assign, Inv}
use nuaf.Safety.Small.{NoPage}
use nuaf.Safety.Files.{IsBacked}
use nuaf.Safety.Malloc.{Received, xxmalloc-Received}
use nuaf.Safety.Kept.{received_owned, received_object}
use nuaf.Wrapper.{nuaf_heap, malloc, zeroed_malloc, calloc}
use nuaf.Wrapper.Calloc.{calloc_lem}
use nuaf.Wrapper.Clear.{Filled, memset-Filled}

-- The program has received the object `a` of `size` zero bytes, in a page that was unused or held an
-- idle object; no other page has changed, and the invariant holds.
pub record Cleared (own : Own) (s : Process) (size a : ℕ) (s' : Process) : Type 0 where
  pub before : (own (page a) ≡ unused) ⊎ (own (page a) ≡ idle a (block_type_of size))
  pub enough : size ≤ block_size (block_type_of size)
  pub free' : ℕ → List ℕ
  pub inv : Inv (assign own (page a) (live a (block_type_of size))) free' s'
  pub zero : (i : ℕ) → a ≤ i → i < a + size → s'.vm.byte i ≡ 0
  pub others : (p : ℕ) → p ≢ page a → SamePage p s.vm s'.vm

Filled-Cleared :
    {own : Own} {s : Process} (size a : ℕ) {s1 s2 : Process} (got : Received own s size a s1)
    → Filled (assign own (page a) (live a (block_type_of size))) got.free' a a 0 size s1 s2
    → Cleared own s size a s2
Filled-Cleared size a got fill = record {
  before = got.before;
  enough = got.enough;
  free' = got.free';
  inv = fill.inv;
  zero = fill.filled;
  others = λ p ne. SamePage-trans (got.others p ne) (fill.others p ne);
}

-- A call of calloc for at most 2048 bytes in all, in a state of the invariant, while the small region
-- has room and, if the freelist of the block type is empty, the place in the data file that is carved
-- next lies before the end of the file, returns an object whose bytes are all zero, with the invariant again, or ends the
-- process with exit(1) because mmap refused the page to carve from.
pub calloc-Cleared :
    {k : System} (getcwd : ℕ → ℕ → Cmd ℕ) {own : Own} {free : ℕ → List ℕ} {s : Process} (n m : ℕ)
    → IsLawful k
    → Inv own free s
    → s.high_vaddr < large_obj_vaddr_start
    → n < 2 ^ 64
    → m < 2 ^ 64
    → n * m ≤ 2048
    → IsBacked (block_type_of (n * m)) s
    → Ensures
        (NoPage k s (block_type_of (n * m)))
        (Cleared own s (n * m))
        (calloc (nuaf_heap k getcwd) n m s)
unfolding zeroed_malloc malloc
calloc-Cleared {k} getcwd {own} {s} n m law inv room hn hm fits backed =
    let no_overflow : leb (2 ^ 64) (n * m) ≡ false = ground arith in
    let positive : (n * m / 2 ^ 63 == 0) ≡ true = ground arith in
    rw (calloc_lem (nuaf_heap k getcwd) n m hn hm, no_overflow, positive)
      (bind (xxmalloc-Received (n * m) law inv room fits backed) λ a s1 got.
        let o = received_object got in
        let ne : (a == 0) ≡ false = ground (arith, o.above, o.page_of) in
        let (s2, run, fill) =
          memset-Filled a (block_type_of (n * m)) 0 (n * m) a got.inv (received_owned got)
            (omega arith) (omega (arith, got.enough)) in
        rw (ne, run) (returns (Filled-Cleared (n * m) a got fill)))
