-- ===== src/Wrapper/Realloc.antt =====
-- `realloc` where the new size cannot be allocated.
use nuaf.Prelude.{ℕ, ◌+◌, ◌*◌, ◌/◌, ◌^◌, ◌≤◌, ◌<◌, ◌≡◌, ◌≢◌, refl, false, List, some, arith, ◌==◌}
use nuaf.Memory.{Vm, page}
use nuaf.System.{System, IsLawful}
use nuaf.Process.{Process, Cmd, pure, ◌>>=◌, ◌>>◌}
use nuaf.Process.Ensures.{Ensures, returns, bind}
use nuaf.Freelist.{block_size}
use nuaf.Allocator.{large_obj_vaddr_start}
use nuaf.Allocator.Interior.{interior_lem, interior-user}
use nuaf.Ownership.{live, Own, Inv}
use nuaf.Safety.Assign.{IsObject-of_live}
use nuaf.Safety.Free.{Freed, xxfree-Freed}
use nuaf.Wrapper.{Heap, nuaf_heap, malloc, malloc_usable_size, free, resize, realloc}

realloc-too_large :
    (h : Heap) (ptr sz : ℕ)
    → ptr ≢ 0
    → 2 ^ 63 ≤ sz
    → sz < 2 ^ 64
    → realloc h ptr sz ≡ (do n ← h.xxmalloc_usable_size ptr; h.xxfree ptr; pure 0)
unfolding realloc resize malloc free malloc_usable_size
realloc-too_large h ptr sz ne lo hi =
    let not_null : (ptr == 0) ≡ false = ground arith in
    let positive : (sz == 0) ≡ false = ground arith in
    let large : (sz / 2 ^ 63 == 0) ≡ false = ground arith in rw (not_null, positive, large) refl

-- Where the new size has its top bit set, realloc of a small object that the program owns returns
-- NULL and frees the object all the same (in a state of the invariant, while the small region has
-- room and if the first mremap succeeds).
pub realloc-Freed :
    {k : System} (getcwd : ℕ → ℕ → Cmd ℕ) {own : Own} {free : ℕ → List ℕ} {s : Process}
    (a b q sz : ℕ) {v : ℕ} {um : Vm}
    → IsLawful k
    → Inv own free s
    → s.high_vaddr < large_obj_vaddr_start
    → own (page a) ≡ live a b
    → a ≤ q
    → q < a + block_size b
    → k.mremap (page a * 4096) 4096 4096 s.high_vaddr s.vm ≡ (some v, um)
    → 2 ^ 63 ≤ sz
    → sz < 2 ^ 64
    → Ensures ⊥ (λ r s'. (r ≡ 0) × Freed own free s a b tt s') (realloc (nuaf_heap k getcwd) q sz s)
realloc-Freed {k} getcwd {own} {s} a b q sz law inv room now from to remapped lo hi =
    let o = IsObject-of_live (own (page a)) (inv.layout.holds (page a)) now in
    rw
      (
        realloc-too_large (nuaf_heap k getcwd) q sz (omega (arith, interior-user a b q s o from to))
            lo hi,
        (interior_lem a b q s o from to).0,
      )
      (bind (xxfree-Freed a b q law inv room now from to remapped)
        λ u s' freed. returns (refl, freed))
