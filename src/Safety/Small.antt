-- ===== src/Safety/Small.antt =====
-- `xxmalloc` of at most LARGEST_BLOCK_SIZE bytes.
use nuaf.Prelude.{
  ℕ, ◌+◌, ◌≤◌, ◌<◌, ◌≡◌, ◌≢◌, refl, sym, ◌∙◌, Bool-cases, ltb, true, inl, inr, ◌⊎◌, false, List, [],
  ◌∷◌, Option, some, none, arith, ◌==◌,
}
use nuaf.Memory.{Vm, page}
use nuaf.Words.{round_down}
use nuaf.System.{System, IsLawful, SamePage}
use nuaf.Process.{Process, ok}
use nuaf.Process.Ensures.{Ensures, returns, exits}
use nuaf.Freelist.{block_type_of, carve, reuse, freelist_pop}
use nuaf.Freelist.Sizes.{block_type_of_bounds}
use nuaf.Allocator.{large_obj_vaddr_start}
use nuaf.Ownership.{unused, live, idle, Own, assign, IsObject, Chain, Layout}
use nuaf.Safety.Files.{IsBacked, IsSteady}
use nuaf.Safety.Carve.{
  carve_ok, carve_refused, carved_page-unused, page-carved_object, carved-Layout, carved-IsSteady,
  carve_fault,
}
use nuaf.Safety.Reuse.{
  popped_free, same_page, top-IsObject, reuse_lem, popped-Layout, popped-IsSteady,
}

-- What a successful small allocation of block type `b` leaves: the object `a` belongs to the program,
-- in a page that was unused or held an idle object, and no other page has changed.
pub record Allocated (own : Own) (s : Process) (b a : ℕ) (s' : Process) : Type 0 where
  pub before : (own (page a) ≡ unused) ⊎ (own (page a) ≡ idle a b)
  pub free' : ℕ → List ℕ
  pub layout : Layout (assign own (page a) (live a b)) free' s'
  pub others : (p : ℕ) → p ≢ page a → SamePage p s.vm s'.vm
  pub next_kept : s'.large_obj_next_page ≡ s.large_obj_next_page
  pub big_kept : s'.g_big_obj_m ≡ s.g_big_obj_m
  pub lock_kept : s'.g_m ≡ s.g_m
  pub high_kept : s.high_vaddr ≤ s'.high_vaddr
  pub high_grows : s'.high_vaddr ≤ s.high_vaddr + 4096
  pub steady : IsSteady 8 s s'

-- mmap refuses the page that an object of block type `b` would be carved from.
abbrev pub NoPage : System → Process → ℕ → Type 0
NoPage k s b =
    (um : Vm) × (k.mmap_file s.high_vaddr 4096 s.data_fd
        (round_down (s.g_flsts b).high_canonical_addr 4096) s.vm
      ≡ (none, um))

-- In some state mmap refused a page to carve from.
abbrev pub Refusal : System → Type 0
Refusal k = (t : Process) × (b : ℕ) × NoPage k t b

module _ {k : System} (law : IsLawful k) {own : Own} {free : ℕ → List ℕ} {s : Process}
    (l : Layout own free s) (room : s.high_vaddr < large_obj_vaddr_start) (b : ℕ)
    (small : b < 8) where
  carve-Ensures :
      round_down (s.g_flsts b).high_canonical_addr 4096 < s.vm.file_length s.data_fd
      → Ensures (NoPage k s b) (Allocated own s b) (carve k b s)
  carve-Ensures backed =
      go
        (k.mmap_file s.high_vaddr 4096 s.data_fd (round_down (s.g_flsts b).high_canonical_addr 4096)
          s.vm)
        refl
    where
      go :
          (r : Option ℕ × Vm)
          → k.mmap_file s.high_vaddr 4096 s.data_fd
              (round_down (s.g_flsts b).high_canonical_addr 4096)
              s.vm
            ≡ r
          → Ensures (NoPage k s b) (Allocated own s b) (carve k b s)
      go (none, um) e = rw (carve_refused law l b small e) (exits (um, e))
      go (some a, um) e =
          let (wm, run, marked) = carve_ok law l b small e backed in
          let at = page-carved_object l b small room in
          rw run (
            returns (record {
              before = inl (rw at (carved_page-unused l b small room));
              free' = free;
              layout = rw at (carved-Layout l b small room marked);
              others = λ p ne. marked.others p (λ q. ne (q ∙ sym at));
              next_kept = refl;
              big_kept = refl;
              lock_kept = refl;
              high_kept = omega arith;
              high_grows = omega arith;
              steady = carved-IsSteady l b small room marked;
            }))

  reuse-Ensures :
      (a : ℕ) (xs : List ℕ)
      → Chain own s.vm b (s.g_flsts b).top_of_stack (a ∷ xs)
      → Ensures (NoPage k s b) (Allocated own s b) (reuse b s)
  reuse-Ensures a xs chain = rw (reuse_lem l b small a xs chain) (
      returns (record {
        before = inr chain.1;
        free' = popped_free free b xs;
        layout = popped-Layout l b small a xs chain;
        others = λ p ne. same_page s.vm p;
        next_kept = refl;
        big_kept = refl;
        lock_kept = refl;
        high_kept = omega arith;
        high_grows = omega arith;
        steady = popped-IsSteady l b small a xs chain;
      }))

module _ {k : System} (law : IsLawful k) {own : Own} {free : ℕ → List ℕ} {s : Process}
    (l : Layout own free s) (room : s.high_vaddr < large_obj_vaddr_start) (size : ℕ)
    (fits : size ≤ 2048) (backed : IsBacked (block_type_of size) s) where
  abbrev chosen : ℕ
  chosen = block_type_of size

  pop-Chain :
      (xs : List ℕ)
      → Chain own s.vm chosen (s.g_flsts chosen).top_of_stack xs
      → Ensures (NoPage k s chosen) (Allocated own s chosen) (freelist_pop k size s)
  unfolding freelist_pop
  pop-Chain [] chain =
      rw chain (carve-Ensures law l room chosen (block_type_of_bounds size fits).0 (backed chain))
  pop-Chain (a ∷ xs) chain =
      let small = (block_type_of_bounds size fits).0 in
      let o : IsObject s.vm (page a) a chosen = top-IsObject l chosen small a xs chain in
      let ne : (a == 0) ≡ false = ground (arith, o.above) in
      rw (chain.0, ne) (reuse-Ensures law l room chosen small a xs chain)

  pub freelist_pop-Ensures :
      Ensures (NoPage k s chosen) (Allocated own s chosen) (freelist_pop k size s)
  freelist_pop-Ensures =
      pop-Chain (free chosen) (l.chains chosen (block_type_of_bounds size fits).0)

-- Where `freelist_pop` returns, it has not carved past the end of the data file.
pub freelist_pop-IsBacked :
    {k : System} (law : IsLawful k) {own : Own} {free : ℕ → List ℕ} {s : Process}
    (l : Layout own free s) (size : ℕ) (fits : size ≤ 2048) {a : ℕ} {s' : Process}
    → freelist_pop k size s ≡ ok a s'
    → IsBacked (block_type_of size) s
unfolding freelist_pop
freelist_pop-IsBacked {k} law {own} {free} {s} l size fits {a} {s'} run empty =
    let b = block_type_of size in
    let offset = round_down (s.g_flsts b).high_canonical_addr 4096 in
    let small = (block_type_of_bounds size fits).0 in
    let none_idle : ((s.g_flsts b).top_of_stack == 0) ≡ true = ground arith in
    let ran : carve k b s ≡ ok a s' = rw none_idle at run in
    elim (Bool-cases (ltb offset (s.vm.file_length s.data_fd))) [
      | inl inside ↦ ground arith
      | inr past ↦
          absurd (go ran (ground arith) (k.mmap_file s.high_vaddr 4096 s.data_fd offset s.vm) refl)
    ]
  where
    go :
        carve k (block_type_of size) s ≡ ok a s'
        → s.vm.file_length s.data_fd
          ≤ round_down (s.g_flsts (block_type_of size)).high_canonical_addr 4096
        → (r : Option ℕ × Vm)
        → k.mmap_file s.high_vaddr 4096 s.data_fd
            (round_down (s.g_flsts (block_type_of size)).high_canonical_addr 4096)
            s.vm
          ≡ r
        → ⊥
    go ran past (none, um) e =
        let refused =
          carve_refused law l (block_type_of size) (block_type_of_bounds size fits).0 e in
        cc (ran, refused)
    go ran past (some v, um) e =
        let fault =
          carve_fault law l (block_type_of size) (block_type_of_bounds size fits).0 e past in
        cc (ran, fault)
