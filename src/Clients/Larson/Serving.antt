-- ===== src/Clients/Larson/Serving.antt =====
-- The two arrays that a thread of larson.cpp works on, in large objects of the allocator, and the
-- blocks that their entries point to.
pub mod Calls
pub mod Entries
pub mod Running
pub mod Stores
pub mod Thread
use nuaf.Prelude.{ℕ, ◌+◌, ◌*◌, ◌%◌, ◌≤◌, ◌<◌, ◌≡◌, ◌≢◌, refl, ◌∙◌, ap, ◌⊎◌, List, arith}
use nuaf.Memory.{page, read}
use nuaf.System.{Within, SamePage}
use nuaf.Process.{Process, ok, load_word}
use nuaf.Process.Access.{load_ok}
use nuaf.Ownership.{live, big, Own, IsBig, Inv}
use nuaf.Ownership.Frame.{read_same}
use nuaf.Safety.Assign.{IsBig-of_eq}

-- `asize` entries from `array` on, in the large object of the `n` pages from page `f` on, and as many
-- from `blksize` on, in that of the `m` pages from page `g` on.
pub record Arrays : Type 0 where
  pub array : ℕ
  pub blksize : ℕ
  pub asize : ℕ
  pub f : ℕ
  pub n : ℕ
  pub g : ℕ
  pub m : ℕ
  pub array_aligned : array % 8 ≡ 0
  pub array_above : f * 4096 + 16 ≤ array
  pub array_below : array + 8 * asize ≤ (f + n) * 4096
  pub blksize_aligned : blksize % 4 ≡ 0
  pub blksize_above : g * 4096 + 16 ≤ blksize
  pub blksize_below : blksize + 4 * asize ≤ (g + m) * 4096
  pub disjoint : (array + 8 * asize ≤ blksize) ⊎ (blksize + 4 * asize ≤ array)

-- The program owns the objects that the arrays lie in. Entry `i` is the pointer `p i`, and for those
-- entries that `has` names, the program owns the small object there, of block type `b i`, no two on one
-- page.
pub record IsServing (arrays : Arrays) (has : ℕ → Type 0) (own : Own) (p b : ℕ → ℕ) (s : Process)
    : Type 0 where
  pub array_big : own arrays.f ≡ big arrays.f arrays.n
  pub blksize_big : own arrays.g ≡ big arrays.g arrays.m
  pub stored : (i : ℕ) → i < arrays.asize → read 8 (arrays.array + 8 * i) s.vm ≡ p i
  pub owned : (i : ℕ) → i < arrays.asize → has i → own (page (p i)) ≡ live (p i) (b i)
  pub apart :
      (i j : ℕ)
      → i < arrays.asize
      → j < arrays.asize
      → has i
      → has j
      → i ≢ j
      → page (p i) ≢ page (p j)

-- All entries, and all but one.
abbrev pub AllEntries : ℕ → Type 0
AllEntries i = Unit {0}

abbrev pub AllBut : ℕ → ℕ → Type 0
AllBut out i = i ≢ out

module _ {arrays : Arrays} {has : ℕ → Type 0} {own : Own} {p b : ℕ → ℕ} {s : Process} where
  -- Entries may be left out.
  pub IsServing-fewer :
      {has' : ℕ → Type 0}
      → ((i : ℕ) → i < arrays.asize → has' i → has i)
      → IsServing arrays has own p b s
      → IsServing arrays has' own p b s
  IsServing-fewer fewer sv = record {
    array_big = sv.array_big;
    blksize_big = sv.blksize_big;
    stored = sv.stored;
    owned = λ i lt h. sv.owned i lt (fewer i lt h);
    apart = λ i j li lj hi hj ne. sv.apart i j li lj (fewer i li hi) (fewer j lj hj) ne;
  }

  -- A page of the first array belongs to its large object.
  pub entry-IsBig :
      {free : ℕ → List ℕ} (i : ℕ)
      → Inv own free s
      → IsServing arrays has own p b s
      → i < arrays.asize
      → (own (page (arrays.array + 8 * i)) ≡ big arrays.f arrays.n)
        × IsBig s.vm (page (arrays.array + 8 * i)) arrays.f arrays.n
  entry-IsBig i inv sv lt =
      let x = page (arrays.array + 8 * i) in
      let inside : Within arrays.f arrays.n x =
        (omega (arith, arrays.array_above), omega (arith, arrays.array_below)) in
      let whole = inv.layout.whole arrays.f arrays.f arrays.n sv.array_big x inside in
      (whole, IsBig-of_eq (own x) (inv.layout.holds x) whole)

  pub load-entry :
      {free : ℕ → List ℕ} (i : ℕ)
      → Inv own free s
      → IsServing arrays has own p b s
      → i < arrays.asize
      → load_word (arrays.array + 8 * i) s ≡ ok (p i) s
  load-entry i inv sv lt =
      load_ok 8 (arrays.array + 8 * i) (page (arrays.array + 8 * i)) s refl (omega arith)
        (omega (arith, arrays.array_aligned)) (entry-IsBig i inv sv lt).1.mapped
      ∙ ap (λ w. ok w s) (sv.stored i lt)

  -- What leaves the large objects alone, and the small ones that the entries point to with the program.
  pub IsServing-frame :
      {free : ℕ → List ℕ} {own' : Own} {s' : Process}
      → Inv own free s
      → IsServing arrays has own p b s
      → ((x f n : ℕ) → own x ≡ big f n → (own' x ≡ big f n) × SamePage x s.vm s'.vm)
      → ((i : ℕ) → i < arrays.asize → has i → own' (page (p i)) ≡ live (p i) (b i))
      → IsServing arrays has own' p b s'
  IsServing-frame inv sv bigs smalls = record {
    array_big = (bigs arrays.f arrays.f arrays.n sv.array_big).0;
    blksize_big = (bigs arrays.g arrays.g arrays.m sv.blksize_big).0;
    stored = λ i lt.
        let x = page (arrays.array + 8 * i) in
        read_same 8 (arrays.array + 8 * i) x
          (bigs x arrays.f arrays.n (entry-IsBig i inv sv lt).0).1 refl
          (omega (arith, arrays.array_aligned))
        ∙ sv.stored i lt;
    owned = smalls;
    apart = sv.apart;
  }
