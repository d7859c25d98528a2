-- ===== src/Wrapper/Aligned.antt =====
-- `memalign` for small sizes and alignments that are powers of two.
use native.Mathlib.Decide.{ℕ_discrete}
use nuaf.Prelude.{
  ℕ, ◌+◌, ◌-◌, ◌*◌, ◌/◌, ◌%◌, ◌^◌, ◌≤◌, ◌<◌, ◌≡◌, ◌≢◌, true, false, List, arith, ◌==◌,
}
use nuaf.Prelude.Powers.{two_pow-pos, below_eight}
use nuaf.Memory.{page}
use nuaf.Words.{add_size, mul_size}
use nuaf.System.{System, IsLawful, Remaps, SamePage-trans}
use nuaf.Process.{Process, Cmd}
use nuaf.Process.Ensures.{Ensures, returns, bind, weaken, weaken_reason}
use nuaf.Freelist.{block_size, block_type_of}
use nuaf.Allocator.{large_obj_vaddr_start}
use nuaf.Ownership.{live, Own, assign, Inv}
use nuaf.Safety.Assign.{IsObject-of_live}
use nuaf.Safety.Small.{Refusal}
use nuaf.Safety.Malloc.{Received, xxmalloc-Received}
use nuaf.Freelist.Sizes.{block_type_of_bounds}
use nuaf.Safety.Files.{HasPages, HasPages-IsSteady, IsBacked-of_HasPages}
use nuaf.Safety.Remapped.{remap_of_live}
use nuaf.Safety.Free.{Freed, freed_own, xxfree-Freed}
use nuaf.Safety.Kept.{
  received_owned, received_object, received_sized, received_user, Keeps, received_apart,
  Received-Keeps, Freed-keeps,
}
use nuaf.Wrapper
use nuaf.Wrapper.Alignment.{good_alignment, never_lucky, up, up_lem}
use nuaf.Wrapper.{Heap, nuaf_heap, is_bad_alignment, memalign_up, memalign}

-- The objects of every block type begin at a multiple of eight.
start_of_grid :
    (b : ℕ) → b < 8 → (a : ℕ) → 16 ≤ a % 4096 → (a % 4096 - 16) % block_size b ≡ 0 → a % 8 ≡ 0
start_of_grid =
    below_eight (λ b. (a : ℕ) → 16 ≤ a % 4096 → (a % 4096 - 16) % block_size b ≡ 0 → a % 8 ≡ 0)
      (λ a h g. omega arith) (λ a h g. omega arith) (λ a h g. omega arith) (λ a h g. omega arith)
      (λ a h g. omega arith) (λ a h g. omega arith) (λ a h g. omega arith) (λ a h g. omega arith)

-- The program owns a small object with room for `size` bytes from the address `r` on, a multiple of
-- `alignment`, in a page that was not its own before; its other objects are kept with their bytes, and
-- the invariant holds.
pub record IsAligned (own : Own) (s : Process) (alignment size r : ℕ) (s' : Process) : Type 0 where
  pub object : ℕ
  pub block_type : ℕ
  pub own' : Own
  pub free' : ℕ → List ℕ
  pub inv : Inv own' free' s'
  pub owned : own' (page object) ≡ live object block_type
  pub inside : (object ≤ r) × (r < object + block_size block_type)
  pub enough : r + size ≤ object + block_size block_type
  pub multiple : r % alignment ≡ 0
  pub new : (p c d : ℕ) → own p ≡ live c d → p ≢ page object
  pub kept : Keeps own s.vm own' s'.vm

pub IsAligned-nonzero :
    {own : Own} {s s' : Process} {alignment size r : ℕ}
    → IsAligned own s alignment size r s'
    → 0 < r
IsAligned-nonzero got =
    let o =
      IsObject-of_live (got.own' (page got.object)) (got.inv.layout.holds (page got.object))
        got.owned in
    omega (arith, o.above, got.inside)

-- The two branches behind the test of the alignment.
module _ {k : System} (getcwd : ℕ → ℕ → Cmd ℕ) {own : Own} {free : ℕ → List ℕ} {s : Process}
    (size : ℕ) (law : IsLawful k) (remaps : Remaps k) (inv : Inv own free s) where
  malloc-IsAligned :
      s.high_vaddr < large_obj_vaddr_start
      → size ≤ 2048
      → HasPages 8 s
      → Ensures (Refusal k) (IsAligned own s 8 size) (Wrapper.malloc (nuaf_heap k getcwd) size s)
  unfolding Wrapper.malloc
  malloc-IsAligned room fits backed =
      let b = block_type_of size in
      let small : (size / 2 ^ 63 == 0) ≡ true = ground arith in
      rw small (
        weaken
          (λ a s1 got.
            let o = received_object got in
            record {
              object = a;
              block_type = b;
              own' = assign own (page a) (live a b);
              free' = got.free';
              inv = got.inv;
              owned = received_owned got;
              inside = (omega arith, omega (arith, received_sized got));
              enough = omega (arith, got.enough);
              multiple = start_of_grid b o.block_type a o.behind_header o.on_grid;
              new = λ p c d. received_apart got;
              kept = Received-Keeps b got;
            })
          (weaken_reason (λ no. (s, b, no))
            (xxmalloc-Received size law inv room fits
              (IsBacked-of_HasPages 8 s b backed (block_type_of_bounds size fits).0))))

  module _ (e : ℕ) (room : s.high_vaddr + 8192 < large_obj_vaddr_start)
      (fits : size + 2 * 2 ^ e ≤ 2048) (backed : HasPages 8 s) where
    abbrev whole : ℕ
    whole = size + 2 * 2 ^ e

    -- After the three calls of the allocator.
    three_calls-IsAligned :
        {a a' : ℕ} {s1 s2 s3 : Process} {u : Unit {0}} {free1 : ℕ → List ℕ}
        (got : Received own s size a s1)
        → Freed
            (assign own (page a) (live a (block_type_of size)))
            free1
            s1
            a
            (block_type_of size)
            u
            s2
        → Received
            (freed_own
              (assign own (page a) (live a (block_type_of size)))
              s1
              a
              (block_type_of size))
            s2
            whole
            a'
            s3
        → IsAligned own s (2 ^ e) size (up e (omega arith) a') s3
    three_calls-IsAligned {a} {a'} {s1} {s2} {s3} got done got' =
        let b = block_type_of size in
        let own1 = assign own (page a) (live a b) in
        let own2 = freed_own own1 s1 a b in
        let (lo, hi, multiple) = up_lem e (omega arith) a' (omega (arith, received_user got')) in
        let pos = two_pow-pos e in
        let kept : Keeps own s.vm own2 s2.vm = λ p c d now.
          let (now1, same1) = Received-Keeps b got p c d now in
          let (now2, same2) = Freed-keeps done (received_apart got now) now1 in
          (now2, SamePage-trans same1 same2) in
        record {
          object = a';
          block_type = block_type_of whole;
          own' = assign own2 (page a') (live a' (block_type_of whole));
          free' = got'.free';
          inv = got'.inv;
          owned = received_owned got';
          inside = (lo, omega (arith, hi, got'.enough));
          enough = omega (arith, hi, got'.enough);
          multiple = multiple;
          new = λ p c d now. received_apart got' (kept p c d now).0;
          kept = λ p c d now.
              let (now2, same2) = kept p c d now in
              let (now3, same3) = Received-Keeps (block_type_of whole) got' p c d now2 in
              (now3, SamePage-trans same2 same3);
        }

    memalign_up-IsAligned :
        Ensures
          (Refusal k)
          (IsAligned own s (2 ^ e) size)
          (memalign_up (nuaf_heap k getcwd) (2 ^ e) size s)
    unfolding memalign_up Wrapper.malloc Wrapper.free
    memalign_up-IsAligned =
        let b = block_type_of size in
        let small : (size / 2 ^ 63 == 0) ≡ true = ground arith in
        let sum : add_size size (mul_size 2 (2 ^ e)) ≡ whole = omega arith in
        let small' : (whole / 2 ^ 63 == 0) ≡ true = ground arith in
        rw (small, sum, small')
          (bind
            (weaken_reason (λ no. (s, b, no))
              (xxmalloc-Received size law inv (omega arith) (omega arith)
                (IsBacked-of_HasPages 8 s b backed (block_type_of_bounds size (omega arith)).0)))
            λ a s1 got.
              let o = received_object got in
              let moved =
                remap_of_live k a b remaps got.inv (omega (arith, got.high_grows))
                  (received_owned got) in
              rw (never_lucky e (omega arith) a (omega (arith, o.above))) (
                bind
                  (weaken_reason (λ no. absurd no)
                    (xxfree-Freed a b a law got.inv (omega (arith, got.high_grows))
                      (received_owned got) (omega arith) (omega (arith, received_sized got))
                      moved.2))
                  λ u s2 done.
                    bind
                      (weaken_reason (λ no. (s2, block_type_of whole, no))
                        (xxmalloc-Received whole law done.inv
                          (omega (arith, got.high_grows, done.high_grows)) fits
                          (IsBacked-of_HasPages 0 s2 (block_type_of whole)
                            (HasPages-IsSteady 0 0 (HasPages-IsSteady 8 0 backed got.steady)
                              done.steady)
                            (block_type_of_bounds whole fits).0)))
                      λ a' s3 got'. returns (three_calls-IsAligned got done got')))

  -- A memalign of a small size at an alignment that is a power of two, in a state of the invariant,
  -- on a kernel whose mremap moves a mapped page to any other page, while the small region has room for
  -- three pages, the data file has more than eight pages left for every freelist and the size with twice the alignment is small too, returns an address that is a multiple of the
  -- alignment, inside a new small object with room for the size from there on, with all other objects
  -- of the program kept, or ends the process with exit(1) because mmap refused a page.
  pub memalign-IsAligned :
      (e : ℕ)
      → s.high_vaddr + 8192 < large_obj_vaddr_start
      → size + 2 * 2 ^ e ≤ 2048
      → HasPages 8 s
      → Ensures
          (Refusal k)
          (IsAligned own s (2 ^ e) size)
          (memalign (nuaf_heap k getcwd) (2 ^ e) size s)
  unfolding memalign
  memalign-IsAligned e room fits backed = elim (ℕ_discrete (2 ^ e) 8) [
    | yes eight ↦
        rw (good_alignment e (omega arith), eight)
          (malloc-IsAligned (omega arith) (omega arith) backed)
    | no other ↦
        let test : (2 ^ e == 8) ≡ false = ground (arith, other) in
        rw (good_alignment e (omega arith), test) (memalign_up-IsAligned e room fits backed)
  ]
