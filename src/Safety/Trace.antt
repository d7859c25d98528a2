-- ===== src/Safety/Trace.antt =====
-- Any sequence of a program's allocations, releases and writes, and what it can never do.
use nuaf.Prelude.{arith, ℕ, ◌+◌, ◌*◌, ◌%◌, ◌^◌, ◌≤◌, ◌<◌, ◌≡◌, ◌≢◌, sym, ◌∙◌, some}
use nuaf.Memory.{Vm, page}
use nuaf.System.{System, IsLawful, Outside}
use nuaf.Process.{Process, ok, segv, load, store}
use nuaf.Process.Access.{load_fault, store_fault}
use nuaf.Process.Ensures.{of_eq}
use nuaf.Freelist.{block_size}
use nuaf.Allocator.{large_obj_vaddr_start, xxmalloc, xxfree}
use nuaf.Ownership.{live, idle, retired, assign}
use nuaf.Safety.Assign.{assign_self, assign_ne}
use nuaf.Safety.Malloc.{xxmalloc-Received, xxmalloc-IsBacked}
use nuaf.Safety.Free.{freed_own, xxfree-Freed}
use nuaf.Safety.Fault.{unmapped_of_retired}
use nuaf.Safety.Big.{pages_for}
use nuaf.Safety.BigMalloc.{xxmalloc-BigReceived}
use nuaf.Safety.Steps.{
  Client, Reach, IsSafe, ne_of_status, page-not_retired, Outside-retired, Reach-IsSafe,
}

module _ {k : System} (law : IsLawful k) where
  -- From a state of the invariant on, whatever steps the program takes, no page that it has freed is
  -- ever handed out again by an xxmalloc of at most 2048 bytes, while the small region has room.
  pub no_reuse :
      {c d : Client} (p size a : ℕ) {s' : Process}
      → IsSafe c
      → c.own p ≡ retired
      → Reach k c d
      → size ≤ 2048
      → d.process.high_vaddr < large_obj_vaddr_start
      → xxmalloc k size d.process ≡ ok a s'
      → page a ≢ p
  no_reuse {d} p size a safe gone r fits room run e =
      let ((f, inv), kept) = Reach-IsSafe law safe r in
      page-not_retired {c = d}
        (of_eq (xxmalloc-Received size law inv room fits (xxmalloc-IsBacked size law inv fits run))
          run)
        (kept p gone) (sym e)

  -- From a state of the invariant on, whatever steps the program takes, no page that it has freed is
  -- among the pages of an object of more than 2048 bytes that xxmalloc hands out, while these end
  -- below 2^63.
  pub no_big_reuse :
      {c d : Client} (p size a : ℕ) {s' : Process}
      → IsSafe c
      → c.own p ≡ retired
      → Reach k c d
      → 2048 < size
      → page d.process.large_obj_next_page + pages_for size ≤ 2 ^ 51
      → xxmalloc k size d.process ≡ ok a s'
      → Outside (page a) (pages_for size) p
  no_big_reuse {d} p size a safe gone r large room run =
      let ((f, inv), kept) = Reach-IsSafe law safe r in
      let got = of_eq (xxmalloc-BigReceived size law inv large room) run in
      let out = Outside-retired {c = d} got (kept p gone) in
      let at : page a ≡ page d.process.large_obj_next_page = omega (arith, got.placed) in rw at out

  retired_faults :
      {c d : Client} (p : ℕ)
      → IsSafe c
      → c.own p ≡ retired
      → Reach k c d
      → (w x : ℕ) → page x ≡ p
      → 0 < w
      → x % 4096 + w ≤ 4096
      → (load w x d.process ≡ segv x) × ((u : ℕ) → store w x u d.process ≡ segv x)
  retired_faults {c} {d} p safe gone r w x at pos fits =
      let ((f, inv), kept) = Reach-IsSafe law safe r in
      let unmapped = unmapped_of_retired p inv (kept p gone) in
      (
        load_fault w x p d.process at pos fits unmapped,
        λ u. store_fault w x p d.process at pos fits u unmapped,
      )

  -- After a small object of the program has been freed through any pointer into it, in a state of the
  -- invariant with room in the small region and where the first mremap succeeds, however many
  -- allocations, releases and writes follow, every load and every store inside the page that it lay
  -- in raises SIGSEGV.
  pub use_after_free :
      {c d : Client} (a b q : ℕ) {v : ℕ} {um : Vm} {s' : Process} (w x : ℕ)
      → IsSafe c
      → c.process.high_vaddr < large_obj_vaddr_start
      → c.own (page a) ≡ live a b
      → a ≤ q
      → q < a + block_size b
      → k.mremap (page a * 4096) 4096 4096 c.process.high_vaddr c.process.vm ≡ (some v, um)
      → xxfree k q c.process ≡ ok tt s'
      → Reach k (record { own = freed_own c.own c.process a b; process = s' }) d
      → page x ≡ page a
      → 0 < w
      → x % 4096 + w ≤ 4096
      → (load w x d.process ≡ segv x) × ((u : ℕ) → store w x u d.process ≡ segv x)
  use_after_free {c} {d} a b q w x (f, inv) room now lo hi moved run r at pos fits =
      let got = of_eq (xxfree-Freed a b q law inv room now lo hi moved) run in
      let s = c.process in
      let gone : freed_own c.own s a b (page a) ≡ retired =
        assign_ne (assign c.own (page a) retired) (page s.high_vaddr)
          (idle (page s.high_vaddr * 4096 + a % 4096) b) (page a)
          (ne_of_status c.own now got.fresh_unused (λ e. absurd (cc)))
        ∙ assign_self c.own (page a) retired in
      retired_faults (page a) (got.free', got.inv) gone r w x at pos fits
