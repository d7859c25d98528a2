-- ===== src/Wrapper/Strdup.antt =====
-- `strdup` of a string in a small object.
use nuaf.Prelude.{
  ℕ, zero, suc, ◌+◌, ◌/◌, ◌%◌, ◌^◌, ◌≤◌, ◌<◌, ◌≡◌, ◌≢◌, refl, sym, ap, ◌∙◌, ◌⊎◌, true, false, List,
  arith, ◌==◌,
}
use nuaf.Memory.{page}
use nuaf.Words.{add_size}
use nuaf.System.{System, IsLawful, SamePage, SamePage-trans}
use nuaf.Process.{Process, Cmd, ok, load}
use nuaf.Process.Ensures.{Ensures, returns, bind}
use nuaf.Libc.{memcpy, strlen_from, strcpy_from, strlen, strcpy}
use nuaf.Freelist.{block_size, block_type_of}
use nuaf.Allocator.{large_obj_vaddr_start}
use nuaf.Ownership.{unused, live, idle, Own, assign, IsObject, Inv}
use nuaf.Safety.Assign.{IsObject-of_live}
use nuaf.Safety.Small.{NoPage}
use nuaf.Safety.Files.{IsBacked}
use nuaf.Safety.Malloc.{Received, xxmalloc-Received}
use nuaf.Safety.Kept.{received_owned, received_object}
use nuaf.Safety.Use.{store-Inv}
use nuaf.Wrapper
use nuaf.Wrapper.Strings.{
  IsString, load_character, first_character, IsString-tail, fresh, IsString-kept,
}
use nuaf.Wrapper.{nuaf_heap, strdup}
use nuaf.Wrapper.Copy.{memcpy-Copied}

strlen_from-IsString :
    (m fuel k n x : ℕ) (s : Process)
    → IsString x n s
    → k + m ≡ n
    → m < fuel
    → strlen_from fuel k x s ≡ ok n s
unfolding strlen_from
strlen_from-IsString zero (suc fuel) k n x s str e lt =
    let same : k ≡ n = omega arith in rw (load_character k str (omega arith), same, str.end) refl
strlen_from-IsString (suc m) (suc fuel) k n x s str e lt =
    let more : (s.vm.byte (x + k) == 0) ≡ false = ground (arith, str.characters k (omega arith)) in
    rw (load_character k str (omega arith), more)
      (strlen_from-IsString m fuel (suc k) n x s str (omega arith) (omega arith))
strlen_from-IsString m zero k n x s str e lt = absurd (omega arith)

-- `strcpy` of a string of `n` characters to an object on another page is `memcpy` of `n + 1` bytes.
strcpy_from-IsString :
    {own : Own} {free : ℕ → List ℕ} (n fuel a b x src : ℕ) (s : Process)
    → Inv own free s
    → own (page a) ≡ live a b
    → a ≤ x
    → x + suc n ≤ a + block_size b
    → IsString src n s
    → page src ≢ page a
    → n < fuel
    → strcpy_from fuel x src s ≡ memcpy x src (suc n) s
unfolding strcpy_from memcpy
strcpy_from-IsString n zero a b x src s inv now lo hi str ne lt = absurd (omega arith)
strcpy_from-IsString zero (suc fuel) a b x src s inv now lo hi str ne lt =
    let (s1, run1, inv1, others1, state) =
      store-Inv a b 1 x (s.vm.byte src) inv now lo (omega arith) (omega arith) in
    let first : load 1 src s ≡ ok (s.vm.byte src) s = first_character str in
    let end : s.vm.byte src ≡ 0 = ap s.vm.byte (omega arith) ∙ str.end in rw (first, run1, end) refl
strcpy_from-IsString (suc n) (suc fuel) a b x src s inv now lo hi str ne lt =
    let (s1, run1, inv1, others1, state) =
      store-Inv a b 1 x (s.vm.byte src) inv now lo (omega arith) (omega arith) in
    let first : load 1 src s ≡ ok (s.vm.byte src) s = first_character str in
    let at : src + 0 ≡ src = omega arith in
    let nonzero : s.vm.byte src ≢ 0 = λ z. str.characters 0 (omega arith) (ap s.vm.byte at ∙ z) in
    let more : (s.vm.byte src == 0) ≡ false = ground (arith, nonzero) in
    let next : page (src + 1) ≢ page a = λ e. ne (sym (str.in_page 1 (omega arith)) ∙ e) in
    rw (first, run1, more)
      (strcpy_from-IsString n fuel a b (x + 1) (src + 1) s1 inv1 now (omega arith) (omega arith)
        (IsString-tail str ne others1) next (omega arith))

-- The program has received at `a'` a copy of the string of `n` characters at `x`, which it still has,
-- and the invariant holds.
pub record IsDuplicate (own : Own) (s : Process) (x n a' : ℕ) (s' : Process) : Type 0 where
  pub before : (own (page a') ≡ unused) ⊎ (own (page a') ≡ idle a' (block_type_of (n + 1)))
  pub enough : n + 1 ≤ block_size (block_type_of (n + 1))
  pub copied : (i : ℕ) → i < n + 1 → s'.vm.byte (a' + i) ≡ s.vm.byte (x + i) % 256
  pub free' : ℕ → List ℕ
  pub inv : Inv (assign own (page a') (live a' (block_type_of (n + 1)))) free' s'
  pub others : (p : ℕ) → p ≢ page a' → SamePage p s.vm s'.vm

module _ {own : Own} {s : Process} (a b n : ℕ) (now : own (page a) ≡ live a b)
    (str : IsString a n s) {a' : ℕ} {s1 : Process} (got : Received own s (n + 1) a' s1) where
  strcpy-IsDuplicate : (s2 : Process) × (strcpy a' a s1 ≡ ok tt s2) × IsDuplicate own s a n a' s2
  unfolding strcpy
  strcpy-IsDuplicate =
      let b' = block_type_of (n + 1) in
      let apart = fresh a b n now str got in
      let str' = IsString-kept a b n now str got in
      let mine = received_owned got in
      let enough : a' + suc n ≤ a' + block_size b' = omega (arith, got.enough) in
      let o' : IsObject s1.vm (page a') a' b' = received_object got in
      let (s2, run, copy) =
        memcpy-Copied {s = s1} a' b' (page a) a (suc n) a' got.inv mine (omega arith) enough
          str'.in_page apart str'.mapped in
      let same =
        strcpy_from-IsString n (2 ^ 64) a' b' a' a s1 got.inv mine (omega arith) enough str' apart
          (omega (arith, got.enough, o'.in_page)) in
      (
        s2,
        same ∙ run,
        record {
          before = got.before;
          enough = got.enough;
          copied = λ i lt.
              copy.copied i (omega arith)
              ∙ ap (λ c. c % 256)
                  ((got.others (page a) apart).bytes (a + i) (str.in_page i (omega arith)));
          free' = got.free';
          inv = copy.inv;
          others = λ p ne. SamePage-trans (got.others p ne) (copy.others p ne);
        },
      )

-- A strdup of a string of fewer than 2048 characters at the start of a small object of the program, in
-- a state of the invariant, while the small region has room and, if the freelist of the block type is
-- empty, the place in the data file that is carved next lies before the end of the file, returns a new object that holds the
-- same bytes, its end included, and changes no other page, or ends the process with exit(1) because
-- mmap refused a page.
pub strdup-IsDuplicate :
    {k : System} (getcwd : ℕ → ℕ → Cmd ℕ) {own : Own} {free : ℕ → List ℕ} {s : Process} (a b n : ℕ)
    → IsLawful k
    → Inv own free s
    → s.high_vaddr < large_obj_vaddr_start
    → own (page a) ≡ live a b
    → IsString a n s
    → n < 2048
    → IsBacked (block_type_of (n + 1)) s
    → Ensures
        (NoPage k s (block_type_of (n + 1)))
        (IsDuplicate own s a n)
        (strdup (nuaf_heap k getcwd) a s)
unfolding strdup strlen Wrapper.malloc
strdup-IsDuplicate {k} getcwd {own} {s} a b n law inv room now str short backed =
    let o = IsObject-of_live (own (page a)) (inv.layout.holds (page a)) now in
    let not_null : (a == 0) ≡ false = ground (arith, o.above, o.page_of) in
    let len = strlen_from-IsString n (2 ^ 64) 0 n a s str (omega arith) (omega arith) in
    let size : add_size n 1 ≡ n + 1 = omega arith in
    let small : ((n + 1) / 2 ^ 63 == 0) ≡ true = ground arith in
    rw (not_null, len, size, small)
      (bind (xxmalloc-Received (n + 1) law inv room (omega arith) backed) λ a' s1 got.
        let b' = block_type_of (n + 1) in
        let o' : IsObject s1.vm (page a') a' b' = received_object got in
        let not_null' : (a' == 0) ≡ false = ground (arith, o'.above, o'.page_of) in
        let (s2, run, copy) = strcpy-IsDuplicate a b n now str got in
        rw (not_null', run) (returns copy))
