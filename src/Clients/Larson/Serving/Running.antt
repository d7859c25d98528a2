-- ===== src/Clients/Larson/Serving/Running.antt =====
-- What a thread of larson.cpp holds between its rounds, and the stores that enter a new block.
use nuaf.Prelude.{
  ℕ, ◌+◌, ◌-◌, ◌*◌, ◌≤◌, ◌<◌, ◌≡◌, ◌≢◌, false, Bool-cases, inl, inr, ltb, ◌==◌, arith,
}
use mathlib.Core.Path.{subst}
use native.Mathlib.Nat.{mod-lt}
use nuaf.Memory.{page}
use nuaf.Process.{Process, ok, store, load_word}
use nuaf.Ownership.{live, Own, IsObject}
use nuaf.Safety.Files.{IsWithin-raise}
use nuaf.Safety.Assign.{IsObject-of_live}
use nuaf.Clients.Larson.Lran2.{Lran2, lran2}
use nuaf.Clients.Larson.Warmup.{blk_size}
use nuaf.Clients.Larson.Serving.{Arrays, AllEntries, load-entry}
use nuaf.Clients.Larson.Serving.Entries.{update, store-entry, store-size}
use nuaf.Clients.Larson.Serving.Calls.{Holding}

-- The program owns a small block at each entry, and the small region has not grown past
-- `high`, nor the use of the data file past eight times that.
abbrev pub IsRunning : Arrays → ℕ → Process → Type 0
IsRunning arrays high s =
    (own : Own) × (p : ℕ → ℕ) × (b : ℕ → ℕ) × Holding arrays AllEntries own p b high s

pub raise :
    {arrays : Arrays} {high high' : ℕ} {s : Process}
    → IsRunning arrays high s
    → high ≤ high'
    → IsRunning arrays high' s
raise (own, p, b, held) le = (
  own,
  p,
  b,
  record {
    free' = held.free';
    inv = held.inv;
    serving = held.serving;
    within = IsWithin-raise held.within le;
  },
)

-- A size between the limits.
pub blk_size_bounds :
    (min_size max_size : ℕ) (d : Lran2)
    → min_size ≤ max_size
    → (min_size ≤ (blk_size min_size max_size d).0) × ((blk_size min_size max_size d).0 ≤ max_size)
unfolding blk_size
blk_size_bounds min_size max_size d le = elim (Bool-cases (min_size == max_size)) [
  | inl same ↦ rw same (omega arith, omega (arith, le))
  | inr other ↦
      let width = max_size - min_size in
      let less : min_size < max_size = ground arith in
      let up : ltb max_size min_size ≡ false = ground arith in
      let below = mod-lt (lran2 d).0 {m = width} (omega arith) in
      rw (other, up) (omega arith, omega arith)
]

-- A new block, on no page of the entries, and its size are entered, and the entry is read back.
pub enter-Holding :
    {arrays : Arrays} {has : ℕ → Type 0} {own : Own} {p b : ℕ → ℕ} {high : ℕ} {s : Process} (i : ℕ)
    (has' : ℕ → Type 0) (q c size : ℕ)
    → i < arrays.asize
    → ((j : ℕ) → has' j → j ≢ i → has j)
    → Holding arrays has own p b high s
    → own (page q) ≡ live q c
    → ((j : ℕ) → j < arrays.asize → has j → page q ≢ page (p j))
    → 0 < size
    → size ≤ 2048
    → (s1 : Process) × (s2 : Process) × (store 8 (arrays.array + 8 * i) q s ≡ ok tt s1)
      × (store 4 (arrays.blksize + 4 * i) size s1 ≡ ok tt s2)
      × (load_word (arrays.array + 8 * i) s2 ≡ ok q s2)
      × ((q == 0) ≡ false)
      × Holding arrays has' own (update p i q) (update b i c) high s2
enter-Holding {arrays} {own} {p} {high = high} {s} i has' q c size lt but held now fresh from to =
    let o : IsObject s.vm (page q) q c =
      IsObject-of_live (own (page q)) (held.inv.layout.holds (page q)) now in
    let self : update p i q i ≡ q = ground arith in
    let (s1, run1, inv1, sv1, high1) =
      store-entry held.inv i lt has' q c but held.serving now fresh in
    let (s2, run2, inv2, sv2, high2) = store-size inv1 i lt size sv1 from to in
    (
      s1,
      s2,
      run1,
      run2,
      subst (λ a. load_word (arrays.array + 8 * i) s2 ≡ ok a s2) self (load-entry i inv2 sv2 lt),
      ground (arith, o.above, o.page_of),
      record {
        free' = held.free';
        inv = inv2;
        serving = sv2;
        within = high2 high (high1 high held.within);
      },
    )
