-- ===== src/Clients/Thrash/Rounds.antt =====
-- A worker of cache-thrash on the allocator of this repository.
use nuaf.Prelude.{
  ℕ, ◌+◌, ◌*◌, ◌/◌, ◌%◌, ◌^◌, ◌≤◌, ◌<◌, ◌≡◌, refl, sym, ap, true, false, List, some, ◌==◌, arith,
}
use mathlib.Core.Path.{subst}
use nuaf.Memory.{page}
use nuaf.Words.{mul_size}
use nuaf.System.{System, IsLawful, Remaps}
use nuaf.Process.{Process, Cmd}
use nuaf.Process.Access.{load_ok}
use nuaf.Process.Ensures.{Ensures, returns, bind, weaken, weaken_reason}
use nuaf.Freelist.{block_size, block_type_of}
use nuaf.Ownership.{live, Own, assign, IsObject, Inv}
use nuaf.Ownership.Frame.{block_size_bounds}
use nuaf.Safety.Assign.{assign_self, IsObject-of_live}
use nuaf.Safety.Small.{Refusal}
use nuaf.Safety.Malloc.{xxmalloc-Received}
use nuaf.Safety.Free.{xxfree-Freed}
use nuaf.Freelist.Sizes.{block_type_of_bounds}
use nuaf.Safety.Files.{
  IsWithin, IsWithin-raise, IsWithin-write, IsWithin-IsSteady, IsBacked-of_IsWithin,
}
use nuaf.Safety.Remapped.{remap_of_live}
use nuaf.Safety.Use.{store-Inv}
use nuaf.Wrapper.{nuaf_heap, malloc, free, operator_new, operator_delete}
use nuaf.Clients.{for_from, new_array}
use nuaf.Clients.Loops.{for_from-Ensures}
use nuaf.Clients.Scratch.{write_byte, write_object}
use nuaf.Clients.Thrash.{ThrashArg, thrash_round, thrash_worker}

-- The small region has grown to `low` or further, but not past `high`, nor the use of the data file past
-- eight times that.
abbrev pub IsBetween : ℕ → ℕ → Process → Type 0
IsBetween low high s = (low ≤ s.high_vaddr) × IsWithin high s

-- The program owns the small object `a`.
abbrev pub Owns : Own → (ℕ → List ℕ) → ℕ → ℕ → ℕ → ℕ → Process → Type 0
Owns own free a b low high s = Inv own free s × (own (page a) ≡ live a b) × IsBetween low high s

write_byte-Owns :
    {own : Own} {free : ℕ → List ℕ} (a b low high k : ℕ) (s : Process)
    → k < block_size b
    → Owns own free a b low high s
    → Ensures ⊥ (λ u. Owns own free a b low high) (write_byte a k tt s)
unfolding write_byte
write_byte-Owns {own} a b low high k s lt (inv, now, (from, within)) =
    let (s1, run, inv1, others, state) =
      store-Inv a b 1 (a + k) (k % 256) inv now (omega arith) (omega arith) (omega arith) in
    let o : IsObject s1.vm (page a) a b =
      IsObject-of_live (own (page a)) (inv1.layout.holds (page a)) now in
    rw
      (
        run,
        load_ok 1 (a + k) (page a) s1 (omega (arith, o.in_page)) (omega arith)
            (omega (arith, o.in_page)) o.mapped,
      )
      (returns (
        inv1,
        now,
        (
          rw (ap (λ (r : Process). r.high_vaddr) state) from,
          subst (IsWithin high) (sym state) (IsWithin-write 1 (a + k) (k % 256) within),
        ),
      ))

pub write_object-Owns :
    {own : Own} {free : ℕ → List ℕ} (a b low high obj_size repetitions : ℕ) (s : Process)
    → obj_size ≤ block_size b
    → Owns own free a b low high s
    → Ensures ⊥ (λ u. Owns own free a b low high) (write_object a obj_size repetitions s)
unfolding write_object
write_object-Owns {own} {free} a b low high obj_size repetitions s fits owns =
    for_from-Ensures (λ i u. Owns own free a b low high) repetitions
      (λ j u. for_from obj_size 0 (write_byte a) tt)
      (λ i u t lt held.
        for_from-Ensures (λ i u. Owns own free a b low high) obj_size (write_byte a)
          (λ k v t' below held'. write_byte-Owns a b low high k t' (omega arith) held') obj_size 0
          tt t (omega arith) held)
      repetitions 0 tt s (omega arith) owns

-- The allocator is in order.
abbrev pub IsReady : ℕ → ℕ → Process → Type 0
IsReady low high s = (own : Own) × (free : ℕ → List ℕ) × Inv own free s × IsBetween low high s

-- The program owns the object `a`, which has room for `size` bytes.
abbrev pub Obtained : ℕ → ℕ → ℕ → ℕ → Process → Type 0
Obtained size low high a s =
    (own : Own) × (free : ℕ → List ℕ) × (size ≤ block_size (block_type_of size))
    × Owns own free a (block_type_of size) low high s

module _ {k : System} (getcwd : ℕ → ℕ → Cmd ℕ) (law : IsLawful k) where
  operator_new-Owns :
      (size low high : ℕ) (s : Process)
      → size ≤ 2048
      → high < 2 ^ 37
      → IsReady low high s
      → Ensures
          (Refusal k)
          (λ r s'. (a : ℕ) × (r ≡ some a) × Obtained size low (high + 4096) a s')
          (operator_new (nuaf_heap k getcwd) size s)
  unfolding operator_new malloc
  operator_new-Owns size low high s fits room (own, free, inv, (from, within)) =
      let positive : (size / 2 ^ 63 == 0) ≡ true = ground arith in
      let b = block_type_of size in
      rw positive (
        bind
          (weaken_reason (λ no. (s, b, no))
            (xxmalloc-Received size law inv (omega (arith, within.low)) fits
              (IsBacked-of_IsWithin b within room (block_type_of_bounds size fits).0)))
          λ a s1 got.
            let now = assign_self own (page a) (live a b) in
            let o : IsObject s1.vm (page a) a b =
              IsObject-of_live (assign own (page a) (live a b) (page a))
                (got.inv.layout.holds (page a)) now in
            let ne : (a == 0) ≡ false = ground (arith, o.above, o.page_of) in
            rw ne (
              returns (
                a,
                refl,
                (
                  assign own (page a) (live a b),
                  got.free',
                  got.enough,
                  (
                    got.inv,
                    now,
                    (
                      omega (arith, got.high_kept),
                      IsWithin-IsSteady 8 (omega arith) within got.steady got.high_grows,
                    ),
                  ),
                ),
              )))

  new_array-Owns :
      (size low high : ℕ) (s : Process)
      → size ≤ 2048
      → high < 2 ^ 37
      → IsReady low high s
      → Ensures
          (Refusal k)
          (Obtained size low (high + 4096))
          (new_array (nuaf_heap k getcwd) 1 size s)
  unfolding new_array
  new_array-Owns size low high s fits room ready =
      let same : mul_size 1 size ≡ size = omega arith in
      rw same (
        bind (operator_new-Owns size low high s fits room ready)
          λ r s1 got. let (a, e, owned) = got in rw e (returns owned))

  delete-IsReady :
      (a b low high : ℕ) (s : Process) {own : Own} {free : ℕ → List ℕ}
      → Remaps k
      → high < 2 ^ 37
      → 0 < block_size b
      → Owns own free a b low high s
      → Ensures ⊥
          (λ u. IsReady (low + 4096) (high + 4096))
          (operator_delete (nuaf_heap k getcwd) a s)
  unfolding operator_delete free
  delete-IsReady a b low high s remaps room nonempty (inv, now, (from, within)) =
      let (v, um, moved) = remap_of_live k a b remaps inv (omega (arith, within.low)) now in
      weaken
        (λ u s' got. (
          _,
          got.free',
          got.inv,
          (
            omega (arith, got.high_moves),
            IsWithin-IsSteady 0 (omega arith) within got.steady got.high_grows,
          ),
        ))
        (xxfree-Freed a b a law inv (omega (arith, within.low)) now (omega arith) (omega arith)
          moved)

  round-IsReady :
      (size repetitions low high : ℕ) (s : Process)
      → Remaps k
      → size ≤ 2048
      → high + 4096 < 2 ^ 37
      → IsReady low high s
      → Ensures
          (Refusal k)
          (λ u. IsReady (low + 4096) (high + 8192))
          (thrash_round (nuaf_heap k getcwd) size repetitions s)
  unfolding thrash_round
  round-IsReady size repetitions low high s remaps fits room ready =
      bind (new_array-Owns size low high s fits (omega arith) ready) λ a s1 got.
        let (own, free, enough, owns) = got in
        let b = block_type_of size in
        let o = IsObject-of_live (own (page a)) (owns.0.layout.holds (page a)) owns.1 in
        bind
          (weaken_reason (λ no. absurd no)
            (write_object-Owns a b low (high + 4096) size repetitions s1 enough owns))
          λ u s2 held.
            weaken
              (λ u s3 done.
                let (own', free', inv', (from, within)) = done in
                (own', free', inv', (from, IsWithin-raise within (omega arith))))
              (weaken_reason (λ no. absurd no)
                (delete-IsReady a b low (high + 4096) s2 remaps room
                  (omega (arith, block_size_bounds b o.block_type)) held))

  -- On a lawful kernel whose mremap moves a mapped page to any other page, a worker with objects of at
  -- most 2048 bytes ends after all its iterations without a fault and with the allocator in order, with
  -- the small region one or two pages further on for each of the iterations, of which every one has moved
  -- the object that it frees to a fresh page; or the process has ended because mmap refused. This is so for
  -- a data file of DATA_SIZE bytes that is carved no further than eight times as far as the small
  -- region, and two pages below the address 2^37 for each iteration.
  pub thrash_worker-IsReady :
      (w : ThrashArg) (low high : ℕ) (s : Process)
      → Remaps k
      → w.obj_size ≤ 2048
      → high + 8192 * w.iterations < 2 ^ 37
      → IsReady low high s
      → Ensures
          (Refusal k)
          (λ u. IsReady (low + 4096 * w.iterations) (high + 8192 * w.iterations))
          (thrash_worker (nuaf_heap k getcwd) w s)
  unfolding thrash_worker
  thrash_worker-IsReady w low high s remaps fits room ready =
      for_from-Ensures (λ i u. IsReady (low + 4096 * i) (high + 8192 * i)) w.iterations
        (λ i u. thrash_round (nuaf_heap k getcwd) w.obj_size w.repetitions)
        (λ i u t lt held.
          let next : high + 8192 * (i + 1) ≡ high + 8192 * i + 8192 = omega arith in
          let next' : low + 4096 * (i + 1) ≡ low + 4096 * i + 4096 = omega arith in
          rw (next, next')
            (round-IsReady w.obj_size w.repetitions (low + 4096 * i) (high + 8192 * i) t remaps fits
              (omega arith) held))
        w.iterations 0 tt s (omega arith)
        (let start : high + 8192 * 0 ≡ high = omega arith in
          let start' : low + 4096 * 0 ≡ low = omega arith in rw (start, start') ready)
