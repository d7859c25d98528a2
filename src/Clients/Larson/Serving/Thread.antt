-- ===== src/Clients/Larson/Serving/Thread.antt =====
-- The data of a thread of larson.cpp that serves its part of the arrays, and the end of one of its
-- rounds.
use nuaf.Prelude.{ℕ, suc, ◌+◌, ◌*◌, ◌%◌, ◌^◌, ◌≤◌, ◌<◌, ◌≡◌, ◌≢◌, refl, ◌∙◌, ◌⊎◌, arith}
use mathlib.Core.Path.{subst}
use nuaf.Memory.{page, read}
use nuaf.Process.{Process, ok, store}
use nuaf.Process.Access.{load_ok}
use nuaf.Process.Ensures.{Ensures, returns}
use nuaf.Ownership.{live, Own, IsObject}
use nuaf.Safety.Assign.{IsObject-of_live}
use nuaf.Clients.Larson.Threads.{ThreadData, keep_block}
use nuaf.Clients.Larson.Serving.{Arrays, AllEntries, AllBut}
use nuaf.Clients.Larson.Serving.Entries.{update, store-byte}
use nuaf.Clients.Larson.Serving.Running.{IsRunning, enter-Holding}
use nuaf.Clients.Larson.Serving.Calls.{Holding}

-- The thread works on the entries from `base` on, with small blocks of at least a byte.
pub record IsFitting (arrays : Arrays) (base : ℕ) (t : ThreadData) : Type 0 where
  pub array_lem : t.array ≡ arrays.array + 8 * base
  pub blksize_lem : t.blksize ≡ arrays.blksize + 4 * base
  pub within : base + t.asize ≤ arrays.asize
  pub some_entry : 0 < t.asize
  pub some_byte : 0 < t.min_size
  pub ordered : t.min_size ≤ t.max_size
  pub small : t.max_size ≤ 2048

-- `t'` is `t` after `rounds` more rounds.
pub record IsAfter (rounds : ℕ) (t t' : ThreadData) : Type 0 where
  pub allocs : t'.c_allocs ≡ (t.c_allocs + rounds) % 2 ^ 64
  pub frees : t'.c_frees ≡ (t.c_frees + rounds) % 2 ^ 64
  pub same_asize : t'.asize ≡ t.asize

-- A thread with the same arrays and sizes.
abbrev pub Alike : ThreadData → ThreadData → Type 0
Alike t t' =
    (t'.array ≡ t.array)
    × (t'.blksize ≡ t.blksize)
    × (t'.asize ≡ t.asize)
    × (t'.min_size ≡ t.min_size)
    × (t'.max_size ≡ t.max_size)

pub IsFitting-Alike :
    {arrays : Arrays} {base : ℕ} {t : ThreadData} (t' : ThreadData)
    → IsFitting arrays base t
    → Alike t t'
    → IsFitting arrays base t'
IsFitting-Alike t' fit (array, blksize, asize, least, most) = record {
  array_lem = array ∙ fit.array_lem;
  blksize_lem = blksize ∙ fit.blksize_lem;
  within = omega (arith, asize, fit.within);
  some_entry = omega (arith, asize, fit.some_entry);
  some_byte = omega (arith, least, fit.some_byte);
  ordered = omega (arith, least, most, fit.ordered);
  small = omega (arith, most, fit.small);
}

pub IsAfter-suc :
    {rounds : ℕ} {t t1 t2 : ThreadData}
    → IsAfter 1 t t1
    → IsAfter rounds t1 t2
    → IsAfter (suc rounds) t t2
IsAfter-suc one more = record {
  allocs = omega (arith, one.allocs, more.allocs);
  frees = omega (arith, one.frees, more.frees);
  same_asize = more.same_asize ∙ one.same_asize;
}

-- The entries outside of the `count` from `base` on are as before.
abbrev pub OthersKept : Arrays → (base count : ℕ) → Process → Process → Type 0
OthersKept arrays base count s s' =
    (j : ℕ)
    → j < arrays.asize
    → (j < base) ⊎ (base + count ≤ j)
    → read 8 (arrays.array + 8 * j) s'.vm ≡ read 8 (arrays.array + 8 * j) s.vm

-- Only the addresses of the two entries matter.
pub keep_block_at :
    (array blksize i array' blksize' i' q size : ℕ)
    → array + 8 * i ≡ array' + 8 * i'
    → blksize + 4 * i ≡ blksize' + 4 * i'
    → keep_block array blksize i q size ≡ keep_block array' blksize' i' q size
unfolding keep_block
keep_block_at array blksize i array' blksize' i' q size e f = rw (e, f)

module _ {arrays : Arrays} {own : Own} {p b : ℕ → ℕ} {high : ℕ} {s : Process} (i : ℕ)
    (lt : i < arrays.asize) where
  -- The end of a round, with a block that lies on no page of the other entries.
  pub keep_block-IsRunning :
      (q c size : ℕ)
      → Holding arrays (AllBut i) own p b high s
      → own (page q) ≡ live q c
      → ((j : ℕ) → j < arrays.asize → AllBut i j → page q ≢ page (p j))
      → 0 < size
      → size ≤ 2048
      → Ensures ⊥
          (λ u s'.
            IsRunning arrays high s'
            × ((j : ℕ) → j < arrays.asize → j ≢ i → read 8 (arrays.array + 8 * j) s'.vm ≡ p j))
          (keep_block arrays.array arrays.blksize i q size s)
  unfolding keep_block
  keep_block-IsRunning q c size held now fresh from to =
      let (s1, s2, run1, run2, read_back, some, held2) =
        enter-Holding i AllEntries q c size lt (λ j h ne. ne) held now fresh from to in
      let self : update p i q i ≡ q = ground arith in
      let first : update p i q i + 0 ≡ q = omega (arith, self) in
      let second : update p i q i + 1 ≡ q + 1 = omega (arith, self) in
      let (s3, run3, inv3, sv3, high3) =
        store-byte held2.inv i lt 0 97 held2.serving tt (omega arith) in
      let (s4, run4, inv4, sv4, high4) = store-byte inv3 i lt 1 98 sv3 tt (omega arith) in
      let o3 : IsObject s3.vm (page q) q c =
        IsObject-of_live (own (page q)) (inv3.layout.holds (page q)) now in
      rw
        (
          run1,
          run2,
          read_back,
          some,
          subst (λ a. store 1 a 97 s2 ≡ ok tt s3) first run3,
          load_ok 1 q (page q) s3 refl (omega arith) (omega (arith, o3.in_page)) o3.mapped,
          subst (λ a. store 1 a 98 s3 ≡ ok tt s4) second run4,
        )
        (returns (
          (
            own,
            update p i q,
            update b i c,
            record {
              free' = held2.free';
              inv = inv4;
              serving = sv4;
              within = high4 high (high3 high held2.within);
            },
          ),
          λ j lj ne. sv4.stored j lj ∙ ground arith,
        ))
