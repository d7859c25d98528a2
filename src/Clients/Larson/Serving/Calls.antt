-- ===== src/Clients/Larson/Serving/Calls.antt =====
-- The calls of free and malloc of a thread of larson.cpp, on the allocator of this repository.
use nuaf.Prelude.{
  ℕ, ◌+◌, ◌*◌, ◌/◌, ◌%◌, ◌^◌, ◌≤◌, ◌<◌, ◌≡◌, ◌≢◌, sym, ◌∙◌, inl, inr, true, List, ◌==◌, arith,
}
use nuaf.Memory.{page}
use nuaf.System.{System, IsLawful, Remaps}
use nuaf.Process.{Process, Cmd}
use nuaf.Process.Ensures.{Ensures, weaken, weaken_reason}
use nuaf.Freelist.{block_type_of}
use nuaf.Ownership.{Status, unused, live, idle, retired, Own, assign, IsObject, Inv}
use nuaf.Ownership.Frame.{block_size_bounds}
use nuaf.Safety.Assign.{assign_self, assign_ne, IsObject-of_live}
use nuaf.Safety.Small.{Refusal}
use nuaf.Freelist.Sizes.{block_type_of_bounds}
use nuaf.Safety.Files.{IsWithin, IsWithin-IsSteady, IsBacked-of_IsWithin}
use nuaf.Safety.Remapped.{remap_of_live}
use nuaf.Safety.Malloc.{Received, xxmalloc-Received}
use nuaf.Safety.Free.{freed_own, xxfree-Freed}
use nuaf.Safety.Steps.{ne_of_status}
use nuaf.Wrapper.{nuaf_heap, malloc, free}
use nuaf.Clients.Larson.Serving.{
  Arrays, IsServing, IsServing-frame, IsServing-fewer, AllEntries, AllBut,
}

-- The allocator is in order, the thread has the entries that `has` names, and the small region has
-- not grown past `high`, nor the use of the data file past eight times that.
pub record Holding (arrays : Arrays) (has : ℕ → Type 0) (own : Own) (p b : ℕ → ℕ) (high : ℕ)
    (s : Process) : Type 0 where
  pub free' : ℕ → List ℕ
  pub inv : Inv own free' s
  pub serving : IsServing arrays has own p b s
  pub within : IsWithin high s

freed_own-apart :
    (own : Own) (s : Process) (a b x : ℕ)
    → x ≢ page a
    → x ≢ page s.high_vaddr
    → freed_own own s a b x ≡ own x
freed_own-apart own s a b x one two =
    assign_ne (assign own (page a) retired) (page s.high_vaddr)
      (idle (page s.high_vaddr * 4096 + a % 4096) b) x two
    ∙ assign_ne own (page a) retired x one

-- A page with an owner is not that of a block that malloc hands out.
owned-ne-received :
    {own : Own} {s s' : Process} {size q x : ℕ} {st : Status}
    → Received own s size q s'
    → own x ≡ st
    → st ≢ unused
    → st ≢ idle q (block_type_of size)
    → x ≢ page q
owned-ne-received {own} got e used busy = elim got.before [
  | inl was ↦ ne_of_status own e was used
  | inr was ↦ ne_of_status own e was busy
]

module _ {k : System} (getcwd : ℕ → ℕ → Cmd ℕ) (law : IsLawful k) {arrays : Arrays} {own : Own}
    {p b : ℕ → ℕ} {high : ℕ} {s : Process} (i : ℕ) (lt : i < arrays.asize)
    (room : high < 2 ^ 37) where
  -- The block of entry `i` is given back.
  pub free-Holding :
      Remaps k
      → Holding arrays AllEntries own p b high s
      → Ensures ⊥
          (λ u. Holding arrays (AllBut i) (freed_own own s (p i) (b i)) p b (high + 4096))
          (free (nuaf_heap k getcwd) (p i) s)
  unfolding free
  free-Holding remaps held =
      let sv = held.serving in
      let now = sv.owned i lt tt in
      let o : IsObject s.vm (page (p i)) (p i) (b i) =
        IsObject-of_live (own (page (p i))) (held.inv.layout.holds (page (p i))) now in
      let (v, um, moved) =
        remap_of_live k (p i) (b i) remaps held.inv (omega (arith, held.within.low)) now in
      weaken
        (λ u s' got. record {
          free' = got.free';
          inv = got.inv;
          serving =
              IsServing-frame held.inv (IsServing-fewer (λ j below h. tt) sv)
                (λ x f n large.
                  let one = ne_of_status own large now (λ e. absurd (cc)) in
                  let two = ne_of_status own large got.fresh_unused (λ e. absurd (cc)) in
                  (freed_own-apart own s (p i) (b i) x one two ∙ large, got.others x one two))
                (λ j below ne.
                  let mine = sv.owned j below tt in
                  freed_own-apart own s (p i) (b i) (page (p j)) (sv.apart j i below lt tt tt ne)
                    (ne_of_status own mine got.fresh_unused (λ e. absurd (cc)))
                  ∙ mine);
          within = IsWithin-IsSteady 0 (omega arith) held.within got.steady got.high_grows;
        })
        (xxfree-Freed (p i) (b i) (p i) law held.inv (omega (arith, held.within.low)) now
          (omega arith) (omega (arith, block_size_bounds (b i) o.block_type)) moved)

module _ {k : System} (getcwd : ℕ → ℕ → Cmd ℕ) (law : IsLawful k) {arrays : Arrays}
    {has : ℕ → Type 0} {own : Own} {p b : ℕ → ℕ} {high : ℕ} {s : Process}
    (room : high < 2 ^ 37) where
  -- A block of a small size is received; it lies on no page of the entries.
  pub malloc-Holding :
      (size : ℕ)
      → size ≤ 2048
      → Holding arrays has own p b high s
      → Ensures
          (Refusal k)
          (λ q s'.
            let c = block_type_of size in
            let own' = assign own (page q) (live q c) in
            Holding arrays has own' p b (high + 4096) s'
            × (own' (page q) ≡ live q c)
            × ((j : ℕ) → j < arrays.asize → has j → page q ≢ page (p j)))
          (malloc (nuaf_heap k getcwd) size s)
  unfolding malloc
  malloc-Holding size fits held =
      let sv = held.serving in
      let positive : (size / 2 ^ 63 == 0) ≡ true = ground arith in
      let c = block_type_of size in
      rw positive (
        weaken
          (λ q s' got.
            let apart = λ (j : ℕ) (below : j < arrays.asize) (h : has j).
              owned-ne-received got (sv.owned j below h) (λ e. absurd (cc)) (λ e. absurd (cc)) in
            (
              record {
                free' = got.free';
                inv = got.inv;
                serving =
                    IsServing-frame held.inv sv
                      (λ x f n large.
                        let ne =
                          owned-ne-received got large (λ e. absurd (cc)) (λ e. absurd (cc)) in
                        (assign_ne own (page q) (live q c) x ne ∙ large, got.others x ne))
                      (λ j below ne.
                        assign_ne own (page q) (live q c) (page (p j)) (apart j below ne)
                        ∙ sv.owned j below ne);
                within = IsWithin-IsSteady 8 (omega arith) held.within got.steady got.high_grows;
              },
              assign_self own (page q) (live q c),
              λ j below ne e. apart j below ne (sym e),
            ))
          (weaken_reason (λ no. (s, c, no))
            (xxmalloc-Received size law held.inv (omega (arith, held.within.low)) fits
              (IsBacked-of_IsWithin c held.within room (block_type_of_bounds size fits).0))))
