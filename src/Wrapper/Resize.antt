-- ===== src/Wrapper/Resize.antt =====
-- `realloc` of a small object to another small size.
use nuaf.Prelude.{
  ℕ, ◌+◌, ◌*◌, ◌/◌, ◌%◌, ◌^◌, ◌≤◌, ◌<◌, ◌≡◌, ◌≢◌, refl, sym, ap, ◌∙◌, ◌⊎◌, true, false, List, arith,
  ltb, ◌==◌, if◌then◌else◌,
}
use nuaf.Memory.{page}
use nuaf.System.{System, IsLawful, Remaps}
use nuaf.Process.{Process, Cmd, pure, ◌>>◌}
use nuaf.Process.Ensures.{Ensures, returns, bind, weaken_reason}
use nuaf.Freelist.{block_size, block_type_of}
use nuaf.Allocator.{large_obj_vaddr_start}
use nuaf.Allocator.Interior.{interior_lem, interior-user}
use nuaf.Ownership.{unused, live, idle, retired, Own, assign, IsObject, Inv}
use nuaf.Ownership.Frame.{block_size_bounds}
use nuaf.Safety.Assign.{assign_self, assign_ne, IsObject-of_live}
use nuaf.Safety.Small.{Refusal}
use nuaf.Safety.Malloc.{Received, xxmalloc-Received}
use nuaf.Safety.Kept.{received_apart, received_owned, received_object}
use nuaf.Safety.Files.{IsBacked}
use nuaf.Safety.Remapped.{remap_of_live}
use nuaf.Safety.Free.{Freed, freed_own, xxfree-Freed}
use nuaf.Wrapper
use nuaf.Wrapper.{Heap, nuaf_heap, malloc, malloc_usable_size, free, move_block, resize, realloc}
use nuaf.Wrapper.Copy.{Copied, memcpy-Copied}

-- `realloc` has moved the object `a` of block type `b` to `a'`, which has room for `sz` bytes: the bytes
-- that fit both are there, the old page is retired, and the invariant holds.
pub record IsMoved (own : Own) (s : Process) (a b sz a' : ℕ) (s' : Process) : Type 0 where
  pub before : (own (page a') ≡ unused) ⊎ (own (page a') ≡ idle a' (block_type_of sz))
  pub enough : sz ≤ block_size (block_type_of sz)
  pub copied : (i : ℕ) → i < block_size b → i < sz → s'.vm.byte (a' + i) ≡ s.vm.byte (a + i) % 256
  pub own' : Own
  pub free' : ℕ → List ℕ
  pub inv : Inv own' free' s'
  pub owned : own' (page a') ≡ live a' (block_type_of sz)
  pub gone : own' (page a) ≡ retired

-- `realloc` has returned the object `a` itself, with its bytes as they were, and the invariant holds.
pub record IsKept (own : Own) (s : Process) (a b r : ℕ) (s' : Process) : Type 0 where
  pub same : r ≡ a
  pub own' : Own
  pub free' : ℕ → List ℕ
  pub inv : Inv own' free' s'
  pub owned : own' (page a) ≡ live a b
  pub bytes : (i : ℕ) → page i ≡ page a → s'.vm.byte i ≡ s.vm.byte i

module _ {k : System} (law : IsLawful k) {own : Own} {free : ℕ → List ℕ} {s : Process} (a b sz : ℕ)
    (inv : Inv own free s) (now : own (page a) ≡ live a b) {a' : ℕ} {s1 : Process}
    (got : Received own s sz a' s1) where
  abbrev b' : ℕ
  b' = block_type_of sz

  abbrev own1 : Own
  own1 = assign own (page a') (live a' b')

  old : IsObject s.vm (page a) a b
  old = IsObject-of_live (own (page a)) (inv.layout.holds (page a)) now

  new_owned : own1 (page a') ≡ live a' b'
  new_owned = received_owned got

  new_object : IsObject s1.vm (page a') a' b'
  new_object = received_object got

  apart : page a ≢ page a'
  apart = received_apart got now

  old_owned : own1 (page a) ≡ live a b
  old_owned = assign_ne own (page a') (live a' b') (page a) apart ∙ now

  length : ℕ
  length = if ltb (block_size b) sz then block_size b else sz

  length-le : (length ≤ block_size b) × (length ≤ block_size b')
  unfolding length
  length-le = ground (arith, got.enough)

  lt-length : (i : ℕ) → i < block_size b → i < sz → i < length
  unfolding length
  lt-length i lo hi = ground arith

  in_old : (i : ℕ) → i < block_size b → page (a + i) ≡ page a
  in_old i lt = omega (arith, old.in_page)

  in_new : (i : ℕ) → i < sz → page (a' + i) ≡ page a'
  in_new i lt = omega (arith, new_object.in_page, got.enough)

  -- The page that the freed object has moved to is neither of the two.
  target_apart :
      (s2 : Process) (fresh : own1 (page s2.high_vaddr) ≡ unused)
      → (page a' ≢ page s2.high_vaddr) × (page a ≢ page s2.high_vaddr)
  target_apart s2 fresh = (
    λ e. (let same = ap own1 e in absurd (cc (fresh, new_owned, same))),
    λ e. (let same = ap own1 e in absurd (cc (fresh, old_owned, same))),
  )

  IsMoved-of_copy :
      {s2 s3 : Process} {free2 : ℕ → List ℕ} {u : Unit {0}}
      → Copied own1 got.free' a' a' a length s1 s2
      → Freed own1 free2 s2 a b u s3
      → IsMoved own s a b sz a' s3
  IsMoved-of_copy {s2} {s3} copy done =
      let (new_apart, old_apart) = target_apart s2 done.fresh_unused in
      let st = idle (page s2.high_vaddr * 4096 + a % 4096) b in
      record {
        before = got.before;
        enough = got.enough;
        copied = λ i lo hi.
            (done.others (page a') (λ e. apart (sym e)) new_apart).bytes (a' + i) (in_new i hi)
            ∙ copy.copied i (lt-length i lo hi)
            ∙ ap (λ c. c % 256) ((got.others (page a) apart).bytes (a + i) (in_old i lo));
        own' = freed_own own1 s2 a b;
        free' = done.free';
        inv = done.inv;
        owned =
            assign_ne (assign own1 (page a) retired) (page s2.high_vaddr) st (page a') new_apart
            ∙ assign_ne own1 (page a) retired (page a') (λ e. apart (sym e))
            ∙ new_owned;
        gone =
            assign_ne (assign own1 (page a) retired) (page s2.high_vaddr) st (page a) old_apart
            ∙ assign_self own1 (page a) retired;
      }

  -- The copy and the release, on the state after the new object has been allocated.
  move_block-IsMoved :
      (getcwd : ℕ → ℕ → Cmd ℕ)
      → Remaps k
      → s1.high_vaddr < large_obj_vaddr_start
      → Ensures ⊥ (IsMoved own s a b sz) (move_block (nuaf_heap k getcwd) a (block_size b) a' sz s1)
  unfolding move_block Wrapper.free length
  move_block-IsMoved getcwd remaps room =
      let (s2, run, copy) =
        memcpy-Copied {s = s1} a' b' (page a) a length a' got.inv new_owned (omega arith)
          (omega (arith, length-le)) (λ i lt. in_old i (omega (arith, length-le))) apart
          ((got.others (page a) apart).mapped ∙ old.mapped) in
      let (v, um, moved) =
        remap_of_live k a b remaps copy.inv (omega (arith, copy.high_kept)) old_owned in
      rw run (
        bind
          (xxfree-Freed a b a law copy.inv (omega (arith, copy.high_kept)) old_owned (omega arith)
            (omega (arith, block_size_bounds b old.block_type)) moved)
          λ u s3 done. returns (IsMoved-of_copy copy done))

  -- The release of a new object that is not larger.
  give_back-IsKept :
      (getcwd : ℕ → ℕ → Cmd ℕ)
      → Remaps k
      → s1.high_vaddr < large_obj_vaddr_start
      → Ensures ⊥ (IsKept own s a b) ((do Wrapper.free (nuaf_heap k getcwd) a'; pure a) s1)
  unfolding Wrapper.free
  give_back-IsKept getcwd remaps room =
      let (v, um, moved) = remap_of_live k a' b' remaps got.inv room new_owned in
      bind
        (xxfree-Freed a' b' a' law got.inv room new_owned (omega arith)
          (omega (arith, block_size_bounds b' new_object.block_type)) moved)
        λ u s2 done.
          let (new_apart, old_apart) = target_apart s1 done.fresh_unused in
          returns (record {
            same = refl;
            own' = freed_own own1 s1 a' b';
            free' = done.free';
            inv = done.inv;
            owned =
                assign_ne (assign own1 (page a') retired) (page s1.high_vaddr)
                  (idle (page s1.high_vaddr * 4096 + a' % 4096) b') (page a) old_apart
                ∙ assign_ne own1 (page a') retired (page a) apart
                ∙ old_owned;
            bytes = λ i e.
                (done.others (page a) apart old_apart).bytes i e
                ∙ (got.others (page a) apart).bytes i e;
          })

-- The calls that every realloc between small sizes begins with.
module _ {k : System} (getcwd : ℕ → ℕ → Cmd ℕ) {own : Own} {free : ℕ → List ℕ} {s : Process}
    (a b sz : ℕ) (law : IsLawful k) (remaps : Remaps k) (inv : Inv own free s)
    (room : s.high_vaddr + 4096 < large_obj_vaddr_start) (now : own (page a) ≡ live a b)
    (nonzero : 0 < sz) (fits : sz ≤ 2048) (backed : IsBacked (block_type_of sz) s) where
  abbrev after_malloc : ℕ → Cmd ℕ
  after_malloc a' =
      if block_size b == block_size (block_type_of sz)
      then (do Wrapper.free (nuaf_heap k getcwd) a'; pure a)
      else move_block (nuaf_heap k getcwd) a (block_size b) a' sz

  realloc-Ensures :
      (Q : ℕ → Process → Type 0)
      → ((a' : ℕ) (s1 : Process)
          → Received own s sz a' s1
          → s1.high_vaddr < large_obj_vaddr_start
          → Ensures ⊥ Q (after_malloc a' s1))
      → Ensures (Refusal k) Q (realloc (nuaf_heap k getcwd) a sz s)
  unfolding realloc resize Wrapper.malloc malloc_usable_size
  realloc-Ensures Q next =
      let o = IsObject-of_live (own (page a)) (inv.layout.holds (page a)) now in
      let sized = block_size_bounds b o.block_type in
      let user = interior-user a b a s o (omega arith) (omega (arith, sized)) in
      let not_null : (a == 0) ≡ false = ground (arith, user) in
      let positive : (sz == 0) ≡ false = ground arith in
      let small : (sz / 2 ^ 63 == 0) ≡ true = ground arith in
      let usable = (interior_lem a b a s o (omega arith) (omega (arith, sized))).0 in
      rw (not_null, positive, usable, small)
        (bind
          (weaken_reason (λ no. (s, block_type_of sz, no))
            (xxmalloc-Received sz law inv (omega arith) fits backed))
          λ a' s1 got.
            let b' = block_type_of sz in
            let o' = new_object law a b sz inv now got in
            let sized' = block_size_bounds b' o'.block_type in
            let user' = interior-user a' b' a' s1 o' (omega arith) (omega (arith, sized')) in
            let not_null' : (a' == 0) ≡ false = ground (arith, user') in
            let usable' = (interior_lem a' b' a' s1 o' (omega arith) (omega (arith, sized'))).0 in
            rw (not_null', usable')
              (weaken_reason (λ no. absurd no) (next a' s1 got (omega (arith, got.high_grows)))))

  -- A realloc of a small object to another small size with another block size, in a state of the
  -- invariant, on a kernel whose mremap moves a mapped page to any other page, while the small region has
  -- room for two pages and, if the freelist of the new block type is empty, the place in the data file
  -- that is carved next lies before the end of the file, returns a new object that holds the bytes of the old one up to the smaller size, with
  -- the old one freed, or ends the process with exit(1) because mmap refused a page.
  pub realloc-IsMoved :
      block_size (block_type_of sz) ≢ block_size b
      → Ensures (Refusal k) (IsMoved own s a b sz) (realloc (nuaf_heap k getcwd) a sz s)
  realloc-IsMoved differs = realloc-Ensures (IsMoved own s a b sz) λ a' s1 got left.
      let other : (block_size b == block_size (block_type_of sz)) ≡ false =
        ground (arith, differs) in
      rw other (move_block-IsMoved law a b sz inv now got getcwd remaps left)

  -- Where the block size stays the same, a realloc of a small object, under the same conditions, returns
  -- the object itself, which the program still owns with all its bytes as they were, or ends the
  -- process with exit(1) because mmap refused a page.
  pub realloc-IsKept :
      block_size (block_type_of sz) ≡ block_size b
      → Ensures (Refusal k) (IsKept own s a b) (realloc (nuaf_heap k getcwd) a sz s)
  realloc-IsKept equal = realloc-Ensures (IsKept own s a b) λ a' s1 got left.
      let same : (block_size b == block_size (block_type_of sz)) ≡ true = ground (arith, equal) in
      rw same (give_back-IsKept law a b sz inv now got getcwd remaps left)
