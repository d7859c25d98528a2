-- ===== src/Safety/Exhausted.antt =====
-- `xxmalloc` of a small object once high_vaddr has reached the large objects.
use nuaf.Prelude.{ℕ, ◌*◌, ◌≤◌, ◌<◌, ◌≡◌, ◌≢◌, refl, List, some, ltb, true, false, ◌==◌, arith}
use mathlib.Core.Path.{subst}
use nuaf.Memory.{Vm, page, read}
use nuaf.Memory.Bytes.{read-halves}
use nuaf.Words.{round_down}
use nuaf.System.{System, IsLawful}
use nuaf.Process.{Process, ok, lock_g_m, unlock_g_m}
use nuaf.Freelist.{block_type_of, freelist_pop}
use nuaf.Freelist.Sizes.{block_type_of_bounds}
use nuaf.Allocator.{large_obj_vaddr_start, large_obj_start_magic, xxmalloc}
use nuaf.Ownership.{big, large_first, Own, IsBig, Layout-relock, Inv}
use nuaf.Safety.Assign.{IsBig-of_eq}
use nuaf.Safety.Carve.{carved, carved_object, carve_ok}
use nuaf.Safety.Malloc.{ensure_init_ready}

-- Once the small region is used up, in a state of the invariant in which the program owns the first
-- large object, a call of xxmalloc for at most 2048 bytes that finds its freelist empty, the place that
-- is carved next before the end of the data file, and to which mmap grants the page, returns an object on the first page of that large object, and the magic
-- word that began it is gone.
pub xxmalloc-exhausted :
    {k : System} {own : Own} {free : ℕ → List ℕ} {s : Process} (size n : ℕ) {v : ℕ} {um : Vm}
    → IsLawful k
    → Inv own free s
    → s.high_vaddr ≡ large_obj_vaddr_start
    → own large_first ≡ big large_first n
    → size ≤ 2048
    → (s.g_flsts (block_type_of size)).top_of_stack ≡ 0
    → round_down (s.g_flsts (block_type_of size)).high_canonical_addr 4096
      < s.vm.file_length s.data_fd
    → k.mmap_file s.high_vaddr 4096 s.data_fd
        (round_down (s.g_flsts (block_type_of size)).high_canonical_addr 4096)
        s.vm
      ≡ (some v, um)
    → (a : ℕ) × (s' : Process) × (xxmalloc k size s ≡ ok a s')
      × (page a ≡ large_first)
      × (read 8 (large_first * 4096) s.vm ≡ large_obj_start_magic)
      × (read 8 (large_first * 4096) s'.vm ≢ large_obj_start_magic)
unfolding xxmalloc lock_g_m unlock_g_m freelist_pop
xxmalloc-exhausted {k} {own} {s} size n law inv spent now fits empty backed granted =
    let b = block_type_of size in
    let l = Layout-relock true s.g_big_obj_m inv.layout in
    let small = (block_type_of_bounds size fits).0 in
    let (wm, run, marked) = carve_ok law l b small granted backed in
    let none_idle : ((s.g_flsts b).top_of_stack == 0) ≡ true = ground arith in
    let e : ltb 2048 size ≡ false = ground arith in
    let o : IsBig s.vm large_first large_first n =
      IsBig-of_eq (own large_first) (inv.layout.holds large_first) now in
    let header : read 4 (large_first * 4096) wm ≡ b =
      subst (λ p. read 4 (p * 4096) wm ≡ b)
        (let e : page s.high_vaddr ≡ large_first = omega arith in e) marked.header in
    (
      carved_object s b,
      record (carved (record s { g_m = true }) b wm) { g_m = false },
      rw (ensure_init_ready k s inv.layout.ready, e, inv.g_m_free, none_idle) (rw run refl),
      omega (arith, spent),
      o.magic,
      λ magic. omega (arith, header, read-halves (large_first * 4096) wm, magic),
    )
