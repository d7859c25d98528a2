-- ===== src/Wrapper/Strndup.antt =====
-- `strndup` of a string in a small object.
use Prim.Native.Nat.{min}
use nuaf.Prelude.{
  ℕ, zero, suc, ◌+◌, ◌/◌, ◌%◌, ◌^◌, ◌≤◌, ◌<◌, ◌≡◌, ◌≢◌, refl, sym, ap, ◌∙◌, ◌⊎◌, true, false, List,
  arith, ◌==◌,
}
use nuaf.Memory.{page}
use nuaf.Words.{add_size}
use nuaf.System.{System, IsLawful, SamePage, SamePage-trans}
use nuaf.Process.{Process, Cmd, ok}
use nuaf.Process.Ensures.{Ensures, returns, bind}
use nuaf.Libc.{memset, memcpy, strnlen, strncpy}
use nuaf.Freelist.{block_size, block_type_of}
use nuaf.Allocator.{large_obj_vaddr_start}
use nuaf.Ownership.{unused, live, idle, Own, assign, Inv}
use nuaf.Safety.Assign.{IsObject-of_live}
use nuaf.Safety.Small.{NoPage}
use nuaf.Safety.Files.{IsBacked}
use nuaf.Safety.Malloc.{Received, xxmalloc-Received}
use nuaf.Safety.Use.{store-Inv}
use nuaf.Safety.Kept.{received_owned, received_user}
use nuaf.Wrapper
use nuaf.Wrapper.{nuaf_heap, strndup}
use nuaf.Wrapper.Copy.{memcpy-Copied}
use nuaf.Wrapper.Clear.{memset-Filled}
use nuaf.Wrapper.Strings.{IsString, first_character, IsString-tail, fresh, IsString-kept}

strnlen-IsString : (sz n x : ℕ) (s : Process) → IsString x n s → strnlen x sz s ≡ ok (min n sz) s
unfolding strnlen
strnlen-IsString zero n x s str = ap (λ m. ok m s) (omega arith)
strnlen-IsString (suc sz) zero x s str =
    let end : s.vm.byte x ≡ 0 = ap s.vm.byte (omega arith) ∙ str.end in
    rw (first_character str, end) (ap (λ m. ok m s) (omega arith))
strnlen-IsString (suc sz) (suc n) x s str =
    let at : x + 0 ≡ x = omega arith in
    let nonzero : s.vm.byte x ≢ 0 = λ z. str.characters 0 (omega arith) (ap s.vm.byte at ∙ z) in
    let more : (s.vm.byte x == 0) ≡ false = ground (arith, nonzero) in
    let tail : IsString (x + 1) n s =
      IsString-tail {p = suc (page x)} str (λ e. omega arith)
        (λ q ne. record { mapped = refl; bytes = λ i e. refl }) in
    rw (first_character str, more, strnlen-IsString sz n (x + 1) s tail)
      (ap (λ m. ok m s) (omega arith))

-- `strncpy` of no more characters than the string has is `memcpy`.
strncpy-IsString :
    {own : Own} {free : ℕ → List ℕ} (m n a b x src : ℕ) (s : Process)
    → Inv own free s
    → own (page a) ≡ live a b
    → a ≤ x
    → x + m ≤ a + block_size b
    → IsString src n s
    → page src ≢ page a
    → m ≤ n
    → strncpy x src m s ≡ memcpy x src m s
unfolding strncpy memcpy
strncpy-IsString zero n a b x src s inv now lo hi str ne le = refl
strncpy-IsString (suc m) zero a b x src s inv now lo hi str ne le = absurd (omega arith)
strncpy-IsString (suc m) (suc n) a b x src s inv now lo hi str ne le =
    let (s1, run1, inv1, others1, state) =
      store-Inv a b 1 x (s.vm.byte src) inv now lo (omega arith) (omega arith) in
    let at : src + 0 ≡ src = omega arith in
    let nonzero : s.vm.byte src ≢ 0 = λ z. str.characters 0 (omega arith) (ap s.vm.byte at ∙ z) in
    let more : (s.vm.byte src == 0) ≡ false = ground (arith, nonzero) in
    let next : page (src + 1) ≢ page a = λ e. ne (sym (str.in_page 1 (omega arith)) ∙ e) in
    rw (first_character str, more, run1)
      (strncpy-IsString m n a b (x + 1) (src + 1) s1 inv1 now (omega arith) (omega arith)
        (IsString-tail str ne others1) next (omega arith))

-- The program has received at `a'` the first `m` bytes at `x` with a zero byte behind them, and the
-- invariant holds.
pub record IsPrefix (own : Own) (s : Process) (x m a' : ℕ) (s' : Process) : Type 0 where
  pub before : (own (page a') ≡ unused) ⊎ (own (page a') ≡ idle a' (block_type_of (m + 1)))
  pub enough : m + 1 ≤ block_size (block_type_of (m + 1))
  pub copied : (i : ℕ) → i < m → s'.vm.byte (a' + i) ≡ s.vm.byte (x + i) % 256
  pub end : s'.vm.byte (a' + m) ≡ 0
  pub free' : ℕ → List ℕ
  pub inv : Inv (assign own (page a') (live a' (block_type_of (m + 1)))) free' s'
  pub others : (p : ℕ) → p ≢ page a' → SamePage p s.vm s'.vm

module _ {own : Own} {s : Process} (a b n m : ℕ) (now : own (page a) ≡ live a b)
    (str : IsString a n s) (le : m ≤ n) {a' : ℕ} {s1 : Process}
    (got : Received own s (m + 1) a' s1) where
  strncpy-IsPrefix :
      (s2 s3 : Process) × (strncpy a' a m s1 ≡ ok tt s2)
      × (memset (a' + m) 0 1 s2 ≡ ok tt s3)
      × IsPrefix own s a m a' s3
  strncpy-IsPrefix =
      let b' = block_type_of (m + 1) in
      let apart = fresh a b n now str got in
      let str' = IsString-kept a b n now str got in
      let mine = received_owned got in
      let enough : a' + m ≤ a' + block_size b' = omega (arith, got.enough) in
      let (s2, run, copy) =
        memcpy-Copied {s = s1} a' b' (page a) a m a' got.inv mine (omega arith) enough
          (λ i lt. str'.in_page i (omega arith)) apart str'.mapped in
      let (s3, run', fill) =
        memset-Filled {s = s2} a' b' 0 1 (a' + m) copy.inv mine (omega arith)
          (omega (arith, got.enough)) in
      let same =
        strncpy-IsString m n a' b' a' a s1 got.inv mine (omega arith) enough str' apart le in
      (
        s2,
        s3,
        same ∙ run,
        run',
        record {
          before = got.before;
          enough = got.enough;
          copied = λ i lt.
              fill.kept (a' + i) (omega arith)
              ∙ copy.copied i lt
              ∙ ap (λ c. c % 256)
                  ((got.others (page a) apart).bytes (a + i) (str.in_page i (omega arith)));
          end = fill.filled (a' + m) (omega arith) (omega arith);
          free' = got.free';
          inv = fill.inv;
          others = λ p ne.
              SamePage-trans (got.others p ne)
                (SamePage-trans (copy.others p ne) (fill.others p ne));
        },
      )

-- A strndup of a string of `n` characters at the start of a small object of the program, for at most
-- `sz` of them and where those that are copied are fewer than 2048, in a state of the invariant,
-- while the small region has room and, if the freelist of the block type is empty, the place in the
-- data file that is carved next lies before the end of the file, returns a new object with the first min(n, sz) bytes and a zero
-- byte behind them, and changes no other page, or ends the process with exit(1) because mmap refused a
-- page.
pub strndup-IsPrefix :
    {k : System} (getcwd : ℕ → ℕ → Cmd ℕ) {own : Own} {free : ℕ → List ℕ} {s : Process}
    (a b n sz : ℕ)
    → IsLawful k
    → Inv own free s
    → s.high_vaddr < large_obj_vaddr_start
    → own (page a) ≡ live a b
    → IsString a n s
    → min n sz < 2048
    → IsBacked (block_type_of (min n sz + 1)) s
    → Ensures
        (NoPage k s (block_type_of (min n sz + 1)))
        (IsPrefix own s a (min n sz))
        (strndup (nuaf_heap k getcwd) a sz s)
unfolding strndup Wrapper.malloc
strndup-IsPrefix {k} getcwd {own} {s} a b n sz law inv room now str short backed =
    let o = IsObject-of_live (own (page a)) (inv.layout.holds (page a)) now in
    let not_null : (a == 0) ≡ false = ground (arith, o.above, o.page_of) in
    let len = strnlen-IsString sz n a s str in
    let m = min n sz in
    let size : add_size m 1 ≡ m + 1 = omega arith in
    let small : ((m + 1) / 2 ^ 63 == 0) ≡ true = ground arith in
    rw (not_null, len, size, small)
      (bind (xxmalloc-Received (m + 1) law inv room (omega arith) backed) λ a' s1 got.
        let not_null' : (a' == 0) ≡ false = ground (arith, received_user got) in
        let (s2, s3, run, run', copy) = strncpy-IsPrefix a b n m now str (omega arith) got in
        rw (not_null', run, run') (returns copy))
