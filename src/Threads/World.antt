-- ===== src/Threads/World.antt =====
-- All threads together: who owns the pages, the state they share, where each thread stands, and the
-- steps that they take in any order.
use nuaf.Prelude.{ℕ, ◌+◌, ◌*◌, ◌%◌, ◌^◌, ◌≤◌, ◌<◌, ◌≡◌, ◌≢◌, ◌⊎◌, true, some}
use nuaf.Memory
use nuaf.Memory.{Vm, page, read}
use nuaf.System.{System, Within}
use nuaf.Process.{Process, ok, store}
use nuaf.Freelist.{block_size, block_type_of}
use nuaf.Allocator.{large_obj_vaddr_start, large_obj_start_magic}
use nuaf.Ownership.{Status, live, retired, big, Own, assign}
use nuaf.Safety.Files.{IsBacked}
use nuaf.Safety.Free.{freed_own}
use nuaf.Safety.Range.{assign_range}
use nuaf.Threads.{
  Pc, resting, malloc_start, malloc_pop, malloc_unlock, big_map, big_unlock, big_header, free_start,
  free_lock, free_move, free_unmap, both_first, update, advance,
}

-- `target t`: the object that thread `t` frees, by its start, or by the start of its first page where it
-- is large.
pub record World : Type 0 where
  pub own : Own
  pub process : Process
  pub pc : ℕ → Pc
  pub target : ℕ → ℕ

abbrev pub block_type : Status → ℕ
block_type (live a b) = b
block_type _ = 0

abbrev pub length : Status → ℕ
length (big f n) = n
length _ = 0

-- Who owns the pages after a step from one place to another, in the state `s` before the step.
abbrev pub settle : Own → Process → Pc → Pc → Own
settle own s (malloc_pop size) (malloc_unlock a) = assign own (page a) (live a (block_type_of size))
settle own s (big_header v n) next = assign_range own (page v) n (big (page v) n)
settle own s (free_move a) next = freed_own own s a (block_type (own (page a)))
settle own s (free_unmap x size) next = assign_range own (page x) (length (own (page x))) retired
settle own s pc next = own

abbrev pub after : World → ℕ → Pc → Process → World
after w t next s' = record {
  own = settle w.own w.process (w.pc t) next;
  process = s';
  pc = update w.pc t next;
  target = w.target;
}

-- What a step wants of its surroundings: room in the regions and in the data file, and a kernel that
-- moves and unmaps pages.
abbrev pub Granted : System → Own → Process → Pc → Type 0
Granted k own s (malloc_pop size) =
    (s.high_vaddr < large_obj_vaddr_start) × IsBacked (block_type_of size) s
Granted k own s (big_map n) = page s.large_obj_next_page + n ≤ 2 ^ 51
Granted k own s (free_move a) =
    (s.high_vaddr < large_obj_vaddr_start)
    × ((v : ℕ) × (um : Vm) × (k.mremap (page a * 4096) 4096 4096 s.high_vaddr s.vm ≡ (some v, um)))
Granted k own s (free_unmap x size) =
    (um : Vm) × (k.munmap (page x * 4096) (length (own (page x)) * 4096) s.vm ≡ (true, um))
Granted k own s pc = Unit {0}

-- `q` points into the object with target `x`, which the program owns.
abbrev pub Freeable : Own → ℕ → ℕ → Type 0
Freeable own x q =
    ((b : ℕ) × (own (page x) ≡ live x b) × (x ≤ q) × (q < x + block_size b))
    ⊎ ((n : ℕ) × (own (page x) ≡ big (page x) n) × (x ≡ page x * 4096) × Within (page x) n (page q))

-- The pages that a thread counts on: those of the large object that it is making, and the one of the
-- object that it frees.
abbrev pub Claims : Pc → ℕ → ℕ → Type 0
Claims (big_unlock v n) x p = Within (page v) n p
Claims (big_header v n) x p = Within (page v) n p
Claims (free_start q) x p = (q ≢ 0) × (p ≡ page x)
Claims (free_lock a) x p = p ≡ page x
Claims (free_move a) x p = p ≡ page x
Claims (free_unmap a size) x p = p ≡ page x
Claims pc x p = ⊥

-- One step: a thread goes on in its call, or begins one, or writes to an object. The program frees only
-- what it owns and what no thread is freeing already.
pub data Move (k : System) (w : World) : World → Type 0 where
  go :
      (t : ℕ) (next : Pc) {s' : Process}
      → Granted k w.own w.process (w.pc t)
      → advance k (w.pc t) w.process ≡ ok next s'
      → Move k w (after w t next s')
  begin_malloc :
      (t size : ℕ) {r : ℕ}
      → w.pc t ≡ resting r
      → Move k w (record w { pc = update w.pc t (malloc_start size) })
  begin_free :
      (t x q : ℕ) {r : ℕ}
      → w.pc t ≡ resting r
      → q ≢ 0
      → Freeable w.own x q
      → ((u : ℕ) → Claims (w.pc u) (w.target u) (page x) → ⊥)
      → Move k w (record w { pc = update w.pc t (free_start q); target = update w.target t x })
  begin_free_null :
      (t : ℕ) {r : ℕ}
      → w.pc t ≡ resting r
      → Move k w (record w { pc = update w.pc t (free_start 0) })
  begin_lock :
      (t : ℕ) {r : ℕ} → w.pc t ≡ resting r → Move k w (record w { pc = update w.pc t both_first })
  write :
      (a b l x v : ℕ) {s' : Process}
      → w.own (page a) ≡ live a b
      → a ≤ x
      → x + l ≤ a + block_size b
      → 0 < l
      → store l x v w.process ≡ ok tt s'
      → Move k w (record w { process = s' })
  write_big :
      (f n l x v : ℕ) {s' : Process}
      → w.own f ≡ big f n
      → f * 4096 + 16 ≤ x
      → x < (f + n) * 4096
      → x % 4096 + l ≤ 4096
      → 0 < l
      → ((p : ℕ)
          → Within f n p
          → p ≢ f
          → read 8 (p * 4096) (Memory.write l x v w.process.vm) ≢ large_obj_start_magic)
      → store l x v w.process ≡ ok tt s'
      → Move k w (record w { process = s' })

pub data Reach (k : System) (w : World) : World → Type 0 where
  here : Reach k w w
  later : {v u : World} → Reach k w v → Move k v u → Reach k w u
