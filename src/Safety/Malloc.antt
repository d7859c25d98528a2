-- ===== src/Safety/Malloc.antt =====
-- `xxmalloc` of a small size from an idle allocator: the theorem about the whole call.
use nuaf.Prelude.{ℕ, ◌+◌, ◌≤◌, ◌<◌, ◌≡◌, ◌≢◌, refl, ◌∙◌, ◌⊎◌, true, false, List, arith, ◌==◌, ltb}
use nuaf.Memory.{page}
use nuaf.System.{System, IsLawful, SamePage}
use nuaf.Process.{
  Process, Run, ok, exit, segv, blocked, undefined, diverged, aborted, and_then, lock_g_m,
  unlock_g_m,
}
use nuaf.Process.Ensures.{Ensures, returns, bind}
use nuaf.Freelist.{block_size, block_type_of, freelist_pop}
use nuaf.Freelist.Sizes.{block_type_of_bounds}
use nuaf.Allocator.{large_obj_vaddr_start, ensure_init, xxmalloc}
use nuaf.Ownership.{unused, live, idle, Own, assign, Layout-relock, Inv}
use nuaf.Safety.Small.{NoPage, freelist_pop-Ensures, freelist_pop-IsBacked}
use nuaf.Safety.Files.{IsBacked, IsSteady}

pub ensure_init_ready : (k : System) (s : Process) → s.data_fd ≢ 0 → ensure_init k s ≡ ok tt s
unfolding ensure_init
ensure_init_ready k s ne = let e : (s.data_fd == 0) ≡ false = ground arith in rw e

-- The program has received the object `a`: its block type is the least that holds `size` bytes, its page was unused or held an idle object before, and no other page has changed.
pub record Received (own : Own) (s : Process) (size a : ℕ) (s' : Process) : Type 0 where
  pub enough : size ≤ block_size (block_type_of size)
  pub least : (c : ℕ) → c < block_type_of size → block_size c < size
  pub before : (own (page a) ≡ unused) ⊎ (own (page a) ≡ idle a (block_type_of size))
  pub free' : ℕ → List ℕ
  pub inv : Inv (assign own (page a) (live a (block_type_of size))) free' s'
  pub others : (p : ℕ) → p ≢ page a → SamePage p s.vm s'.vm
  pub next_kept : s'.large_obj_next_page ≡ s.large_obj_next_page
  pub high_kept : s.high_vaddr ≤ s'.high_vaddr
  pub high_grows : s'.high_vaddr ≤ s.high_vaddr + 4096
  pub steady : IsSteady 8 s s'

-- A call of xxmalloc for at most 2048 bytes, in a state of the invariant, while the small region has
-- room and, if the freelist of its block type is empty, the place in the data file that is carved next
-- lies before the end of the file, returns an object that is `Received`, with the invariant again, or ends the process with
-- exit(1) because mmap refused the page to carve from. It meets no fault, no undefined behaviour and
-- no deadlock.
pub xxmalloc-Received :
    {k : System} {own : Own} {free : ℕ → List ℕ} {s : Process} (size : ℕ)
    → IsLawful k
    → Inv own free s
    → s.high_vaddr < large_obj_vaddr_start
    → size ≤ 2048
    → IsBacked (block_type_of size) s
    → Ensures (NoPage k s (block_type_of size)) (Received own s size) (xxmalloc k size s)
unfolding xxmalloc lock_g_m unlock_g_m
xxmalloc-Received {k} {own} {s} size law inv room fits backed =
    let e : ltb 2048 size ≡ false = ground arith in
    rw (ensure_init_ready k s inv.layout.ready, e, inv.g_m_free)
      (bind
        (freelist_pop-Ensures law (Layout-relock true s.g_big_obj_m inv.layout) room size fits
          backed)
        λ a s' got. returns (record {
          enough = (block_type_of_bounds size fits).1;
          least = (block_type_of_bounds size fits).2;
          before = got.before;
          free' = got.free';
          inv = record {
            layout = Layout-relock false s'.g_big_obj_m got.layout;
            g_m_free = refl;
            g_big_obj_m_free = got.big_kept ∙ inv.g_big_obj_m_free;
          };
          others = got.others;
          next_kept = got.next_kept;
          high_kept = got.high_kept;
          high_grows = got.high_grows;
          steady = record {
            same_file = got.steady.same_file;
            files = got.steady.files;
            carved = got.steady.carved;
          };
        }))

-- Where a call of xxmalloc for at most 2048 bytes returns, it has not carved past the end of the
-- data file.
pub xxmalloc-IsBacked :
    {k : System} {own : Own} {free : ℕ → List ℕ} {s : Process} (size : ℕ)
    → IsLawful k
    → Inv own free s
    → size ≤ 2048
    → {a : ℕ} {s' : Process} → xxmalloc k size s ≡ ok a s'
    → IsBacked (block_type_of size) s
unfolding xxmalloc lock_g_m unlock_g_m
xxmalloc-IsBacked {k} {own} {free} {s} size law inv fits {a} {s'} run =
    let e : ltb 2048 size ≡ false = ground arith in
    go (freelist_pop k size (record s { g_m = true })) refl
      (rw (ensure_init_ready k s inv.layout.ready, e, inv.g_m_free) at run)
  where
    go :
        (r : Run ℕ)
        → freelist_pop k size (record s { g_m = true }) ≡ r
        → and_then r (λ x t. ok x (record t { g_m = false })) ≡ ok a s'
        → IsBacked (block_type_of size) s
    go (ok x t) popped done =
        freelist_pop-IsBacked law (Layout-relock true s.g_big_obj_m inv.layout) size fits popped
    go (exit c) popped done = absurd (cc done)
    go (segv c) popped done = absurd (cc done)
    go blocked popped done = absurd (cc done)
    go undefined popped done = absurd (cc done)
    go diverged popped done = absurd (cc done)
    go aborted popped done = absurd (cc done)
