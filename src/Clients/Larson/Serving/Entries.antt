-- ===== src/Clients/Larson/Serving/Entries.antt =====
-- The entries of a thread of larson.cpp when one of them, a size or a byte of a block is stored.
use nuaf.Prelude.{
  ℕ, ◌+◌, ◌*◌, ◌^◌, ◌≤◌, ◌<◌, ◌≡◌, ◌≢◌, sym, ◌∙◌, ◌⊎◌, inl, inr, Bool-cases, false, List, ◌==◌,
  if◌then◌else◌, arith,
}
use mathlib.Core.Path.{subst}
use nuaf.Memory.{Vm, page, read, write}
use nuaf.Memory.Bytes.{read-write_self, read-write_apart}
use nuaf.Process.{Process, ok, store}
use nuaf.Ownership.{live, Own, IsObject, Inv}
use nuaf.Ownership.Frame.{block_size_bounds}
use nuaf.Safety.Assign.{IsObject-of_live}
use nuaf.Safety.Files.{IsWithin, IsWithin-write}
use nuaf.Safety.Use.{store-Inv}
use nuaf.Safety.Steps.{ne_of_status}
use nuaf.Clients.Larson.Serving.{Arrays, IsServing, IsServing-frame}
use nuaf.Clients.Larson.Serving.Stores.{store_word-Inv, store_int-Inv}

abbrev pub update : (ℕ → ℕ) → ℕ → ℕ → ℕ → ℕ
update p i q j = if j == i then q else p j

entry-stored :
    (array i j q : ℕ) (p : ℕ → ℕ) (vm : Vm)
    → q < 2 ^ 64
    → read 8 (array + 8 * j) vm ≡ p j
    → read 8 (array + 8 * j) (write 8 (array + 8 * i) q vm) ≡ update p i q j
entry-stored array i j q p vm fits e =
    let x = array + 8 * i in
    elim (Bool-cases (j == i)) [
      | inl here ↦
          let at : array + 8 * j ≡ x = ground arith in rw (here, at) (read-write_self 8 x q vm fits)
      | inr other ↦
          let apart : (array + 8 * j + 8 ≤ x) ⊎ (x + 8 ≤ array + 8 * j) = ground arith in
          rw other (read-write_apart 8 (array + 8 * j) 8 x q vm apart ∙ e)
    ]

module _ {arrays : Arrays} {own : Own} {free : ℕ → List ℕ} {p b : ℕ → ℕ} {s : Process}
    (inv : Inv own free s) (i : ℕ) (lt : i < arrays.asize) where
  -- The entry that was left out receives a new block.
  pub store-entry :
      {has : ℕ → Type 0} (has' : ℕ → Type 0) (q c : ℕ)
      → ((j : ℕ) → has' j → j ≢ i → has j)
      → IsServing arrays has own p b s
      → own (page q) ≡ live q c
      → ((j : ℕ) → j < arrays.asize → has j → page q ≢ page (p j))
      → (s' : Process) × (store 8 (arrays.array + 8 * i) q s ≡ ok tt s')
        × Inv own free s'
        × IsServing arrays has' own (update p i q) (update b i c) s'
        × ((high : ℕ) → IsWithin high s → IsWithin high s')
  store-entry has' q c but sv now fresh =
      let o : IsObject s.vm (page q) q c =
        IsObject-of_live (own (page q)) (inv.layout.holds (page q)) now in
      let (run, inv') =
        store_word-Inv inv arrays.f arrays.n sv.array_big (arrays.array + 8 * i) q
          (omega (arith, arrays.array_above)) (omega (arith, arrays.array_aligned))
          (omega (arith, arrays.array_below)) (omega (arith, o.above, o.page_of))
          (omega (arith, o.below, o.page_of)) in
      (
        record s { vm = write 8 (arrays.array + 8 * i) q s.vm },
        run,
        inv',
        record {
          array_big = sv.array_big;
          blksize_big = sv.blksize_big;
          stored = λ j below.
              entry-stored arrays.array i j q p s.vm (omega (arith, o.below, o.page_of))
                (sv.stored j below);
          owned = λ j below h. elim (Bool-cases (j == i)) [
            | inl here ↦ rw here now
            | inr other ↦ rw other (sv.owned j below (but j h (ground arith)))
          ];
          apart = λ j k lj lk hj hk ne. elim (Bool-cases (j == i)) [
            | inl here ↦
                let other : (k == i) ≡ false = ground arith in
                rw (here, other) (fresh k lk (but k hk (ground arith)))
            | inr other ↦
                let mine = but j hj (ground arith) in
                elim (Bool-cases (k == i)) [
                  | inl there ↦ rw (other, there) (λ e. fresh j lj mine (sym e))
                  | inr third ↦
                      rw (other, third) (sv.apart j k lj lk mine (but k hk (ground arith)) ne)
                ]
          ];
        },
        λ h. IsWithin-write 8 (arrays.array + 8 * i) q,
      )

  -- A size is stored.
  pub store-size :
      {has : ℕ → Type 0} (v : ℕ)
      → IsServing arrays has own p b s
      → 0 < v
      → v ≤ 2048
      → (s' : Process) × (store 4 (arrays.blksize + 4 * i) v s ≡ ok tt s')
        × Inv own free s'
        × IsServing arrays has own p b s'
        × ((high : ℕ) → IsWithin high s → IsWithin high s')
  store-size v sv from to =
      let (run, inv') =
        store_int-Inv inv arrays.g arrays.m sv.blksize_big (arrays.blksize + 4 * i) v
          (omega (arith, arrays.blksize_above)) (omega (arith, arrays.blksize_aligned))
          (omega (arith, arrays.blksize_below)) from to in
      (
        record s { vm = write 4 (arrays.blksize + 4 * i) v s.vm },
        run,
        inv',
        record {
          array_big = sv.array_big;
          blksize_big = sv.blksize_big;
          stored = λ j below.
              read-write_apart 8 (arrays.array + 8 * j) 4 (arrays.blksize + 4 * i) v s.vm
                (omega (arith, arrays.disjoint))
              ∙ sv.stored j below;
          owned = sv.owned;
          apart = sv.apart;
        },
        λ h. IsWithin-write 4 (arrays.blksize + 4 * i) v,
      )

  -- A byte of the block is stored.
  pub store-byte :
      {has : ℕ → Type 0} (k v : ℕ)
      → IsServing arrays has own p b s
      → has i
      → k < 16
      → (s' : Process) × (store 1 (p i + k) v s ≡ ok tt s')
        × Inv own free s'
        × IsServing arrays has own p b s'
        × ((high : ℕ) → IsWithin high s → IsWithin high s')
  store-byte k v sv mine small =
      let now = sv.owned i lt mine in
      let o : IsObject s.vm (page (p i)) (p i) (b i) =
        IsObject-of_live (own (page (p i))) (inv.layout.holds (page (p i))) now in
      let (s', run, inv', others, state) =
        store-Inv (p i) (b i) 1 (p i + k) v inv now (omega arith)
          (omega (arith, block_size_bounds (b i) o.block_type)) (omega arith) in
      (
        s',
        run,
        inv',
        IsServing-frame inv sv
            (λ x f n large. (large, others x (ne_of_status own large now (λ e. absurd (cc)))))
            sv.owned,
        λ h within. subst (IsWithin h) (sym state) (IsWithin-write 1 (p i + k) v within),
      )
