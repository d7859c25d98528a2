-- ===== src/Safety/Steps.antt =====
-- The steps that a program takes with the allocator, and that each keeps the invariant.
use nuaf.Prelude.{
  true, ℕ, ◌+◌, ◌*◌, ◌%◌, ◌^◌, ◌≤◌, ◌<◌, ◌≡◌, ◌≢◌, sym, ◌∙◌, ap, inl, inr, List, some,
}
use mathlib.Core.Path.{subst}
use nuaf.Memory
use nuaf.Memory.{Vm, page, read}
use nuaf.System.{System, IsLawful, Within, Outside}
use nuaf.Process.{Process, ok, store}
use nuaf.Process.Ensures.{of_eq}
use nuaf.Freelist.{block_size, block_type_of}
use nuaf.Allocator.{large_obj_start_magic, large_obj_vaddr_start, xxmalloc, xxfree}
use nuaf.Ownership.{Status, live, idle, retired, big, Own, assign, Inv}
use nuaf.Safety.Assign.{assign_ne}
use nuaf.Safety.Malloc.{Received, xxmalloc-Received, xxmalloc-IsBacked}
use nuaf.Safety.Free.{freed_own, xxfree-Freed}
use nuaf.Safety.Big.{pages_for}
use nuaf.Safety.Range.{assign_range, range_sides, assign_range_within, assign_range-Outside}
use nuaf.Safety.BigMalloc.{BigReceived, xxmalloc-BigReceived}
use nuaf.Safety.BigFree.{xxfree-BigFreed}
use nuaf.Safety.Use.{store-Inv}
use nuaf.Safety.UseBig.{big_store-Inv}

-- The program's view beside the state of the allocator.
pub record Client : Type 0 where
  pub own : Own
  pub process : Process

-- Who owns the pages once a large object of `size` bytes has been allocated in the state `s`.
abbrev pub big_own : Own → Process → ℕ → Own
big_own own s size =
    assign_range own (page s.large_obj_next_page) (pages_for size)
      (big (page s.large_obj_next_page) (pages_for size))

-- One step of the program: an allocation that returns, a release of an object that it owns through
-- any pointer into it, for which the kernel grants the first mremap or the munmap, or a write inside
-- such an object. The small region has room for the page that a step needs. A write to a large object
-- leaves its header alone, and leaves no later page of the object beginning with the magic word.
pub data Step (k : System) (c : Client) : Client → Type 0 where
  malloc :
      (size a : ℕ) {s' : Process}
      → size ≤ 2048
      → c.process.high_vaddr < large_obj_vaddr_start
      → xxmalloc k size c.process ≡ ok a s'
      → Step k c
          (record { own = assign c.own (page a) (live a (block_type_of size)); process = s' })
  free :
      (a b q : ℕ) {v : ℕ} {um : Vm} {s' : Process}
      → c.process.high_vaddr < large_obj_vaddr_start
      → c.own (page a) ≡ live a b
      → a ≤ q
      → q < a + block_size b
      → k.mremap (page a * 4096) 4096 4096 c.process.high_vaddr c.process.vm ≡ (some v, um)
      → xxfree k q c.process ≡ ok tt s'
      → Step k c (record { own = freed_own c.own c.process a b; process = s' })
  malloc_big :
      (size a : ℕ) {s' : Process}
      → 2048 < size
      → page c.process.large_obj_next_page + pages_for size ≤ 2 ^ 51
      → xxmalloc k size c.process ≡ ok a s'
      → Step k c (record { own = big_own c.own c.process size; process = s' })
  free_big :
      (f n q : ℕ) {um : Vm} {s' : Process}
      → c.own f ≡ big f n
      → Within f n (page q)
      → k.munmap (f * 4096) (n * 4096) c.process.vm ≡ (true, um)
      → xxfree k q c.process ≡ ok tt s'
      → Step k c (record { own = assign_range c.own f n retired; process = s' })
  write :
      (a b w x v : ℕ) {s' : Process}
      → c.own (page a) ≡ live a b
      → a ≤ x
      → x + w ≤ a + block_size b
      → 0 < w
      → store w x v c.process ≡ ok tt s'
      → Step k c (record { own = c.own; process = s' })
  write_big :
      (f n w x v : ℕ) {s' : Process}
      → c.own f ≡ big f n
      → f * 4096 + 16 ≤ x
      → x < (f + n) * 4096
      → x % 4096 + w ≤ 4096
      → 0 < w
      → ((p : ℕ)
          → Within f n p
          → p ≢ f
          → read 8 (p * 4096) (Memory.write w x v c.process.vm) ≢ large_obj_start_magic)
      → store w x v c.process ≡ ok tt s'
      → Step k c (record { own = c.own; process = s' })

pub data Reach (k : System) (c : Client) : Client → Type 0 where
  here : Reach k c c
  next : {d e : Client} → Reach k c d → Step k d e → Reach k c e

abbrev pub IsSafe : Client → Type 0
IsSafe c = (free : ℕ → List ℕ) × Inv c.own free c.process

-- Retired pages stay retired.
abbrev pub StaysRetired : Client → Client → Type 0
StaysRetired c d = (p : ℕ) → c.own p ≡ retired → d.own p ≡ retired

pub ne_of_status :
    (own : Own) {p q : ℕ} {st st' : Status} → own p ≡ st → own q ≡ st' → st ≢ st' → p ≢ q
ne_of_status own e e' ne at = ne (sym e ∙ ap own at ∙ e')

assign_range_retired :
    (own : Own) (f n p : ℕ) → own p ≡ retired → assign_range own f n retired p ≡ retired
assign_range_retired own f n p gone = elim (range_sides f n p) [
  | inl inside ↦ assign_range_within own f n retired p inside
  | inr out ↦ assign_range-Outside own f n retired p out ∙ gone
]

-- The page of a new object was not retired.
pub page-not_retired :
    {c : Client} {size a p : ℕ} {s' : Process}
    → Received c.own c.process size a s'
    → c.own p ≡ retired
    → p ≢ page a
page-not_retired {c} got gone = elim got.before [
  | inl u ↦ ne_of_status c.own gone u (λ e. absurd (cc))
  | inr i ↦ ne_of_status c.own gone i (λ e. absurd (cc))
]

-- The pages of a new large object were not retired.
pub Outside-retired :
    {c : Client} {size a p : ℕ} {s' : Process}
    → BigReceived c.own c.process size a s'
    → c.own p ≡ retired
    → Outside (page c.process.large_obj_next_page) (pages_for size) p
Outside-retired {c} {size} {p} got gone =
    elim (range_sides (page c.process.large_obj_next_page) (pages_for size) p) [
      | inl inside ↦ let u = got.fresh p inside in absurd (cc (gone, u))
      | inr out ↦ out
    ]

module _ {k : System} (law : IsLawful k) where
  Step-IsSafe : {c d : Client} → IsSafe c → Step k c d → IsSafe d × StaysRetired c d
  Step-IsSafe {c} (f, inv) (malloc size a fits room run) =
      let got : Received c.own c.process size a _ =
        of_eq (xxmalloc-Received size law inv room fits (xxmalloc-IsBacked size law inv fits run))
          run in
      (
        (got.free', got.inv),
        λ p gone.
            assign_ne c.own (page a) (live a (block_type_of size)) p
              (page-not_retired {c = c} got gone)
            ∙ gone,
      )
  Step-IsSafe {c} (f, inv) (free a b q room now lo hi moved run) =
      let got = of_eq (xxfree-Freed a b q law inv room now lo hi moved) run in
      let s = c.process in
      let own1 = assign c.own (page a) retired in
      (
        (got.free', got.inv),
        λ p gone.
            assign_ne own1 (page s.high_vaddr) (idle (page s.high_vaddr * 4096 + a % 4096) b) p
              (ne_of_status c.own gone got.fresh_unused (λ e. absurd (cc)))
            ∙ assign_ne c.own (page a) retired p (ne_of_status c.own gone now (λ e. absurd (cc)))
            ∙ gone,
      )
  Step-IsSafe {c} (f, inv) (malloc_big size a large room run) =
      let got : BigReceived c.own c.process size a _ =
        of_eq (xxmalloc-BigReceived size law inv large room) run in
      (
        (got.free', got.inv),
        λ p gone.
            assign_range-Outside c.own (page c.process.large_obj_next_page) (pages_for size)
              (big (page c.process.large_obj_next_page) (pages_for size)) p
              (Outside-retired {c = c} got gone)
            ∙ gone,
      )
  Step-IsSafe {c} (f, inv) (free_big first n q now inside unmapped run) =
      let got = of_eq (xxfree-BigFreed first n q law inv now inside unmapped) run in
      ((got.free', got.inv), λ p gone. assign_range_retired c.own first n p gone)
  Step-IsSafe {c} (f, inv) (write a b w x v now lo hi pos run) =
      let (s1, run1, inv1, others, written) = store-Inv a b w x v inv now lo hi pos in
      ((f, subst (Inv c.own f) (cc (sym run1 ∙ run)) inv1), λ p gone. gone)
  Step-IsSafe {c} (f, inv) (write_big first n w x v now lo hi in_page pos no_magic run) =
      let (s1, run1, inv1, others, written) =
        big_store-Inv first n w x v inv now lo hi in_page pos no_magic in
      ((f, subst (Inv c.own f) (cc (sym run1 ∙ run)) inv1), λ p gone. gone)

  pub Reach-IsSafe : {c d : Client} → IsSafe c → Reach k c d → IsSafe d × StaysRetired c d
  Reach-IsSafe safe here = (safe, λ p gone. gone)
  Reach-IsSafe safe (next r st) =
      let (safe', kept) = Reach-IsSafe safe r in
      let (safe'', kept') = Step-IsSafe safe' st in (safe'', λ p gone. kept' p (kept p gone))
