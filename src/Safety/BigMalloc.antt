-- ===== src/Safety/BigMalloc.antt =====
-- `xxmalloc` of a large size from an idle allocator: the theorem about the whole call.
use mathlib.Core.Path.{subst}
use nuaf.Prelude.{
  ℕ, ◌+◌, ◌*◌, ◌/◌, ◌^◌, ◌≤◌, ◌<◌, ◌≡◌, refl, true, false, List, Option, some, none, arith, ltb,
}
use nuaf.Memory.{Vm, page}
use nuaf.Words.{add_size}
use nuaf.System.{System, IsLawful, Within, Outside, SamePage, Mapped}
use nuaf.Process.{Process, ok, lock_g_big_obj_m}
use nuaf.Process.Ensures.{Ensures, returns, exits}
use nuaf.Allocator.{map_big, xxmalloc_big, xxmalloc}
use nuaf.Ownership.{unused, big, Own, Layout, Layout-relock, Inv}
use nuaf.Safety.Malloc.{ensure_init_ready}
use nuaf.Safety.Range.{assign_range}
use nuaf.Safety.Big.{pages_for, headed-Outside, map_big-ok, map_big-refused, grown-Layout}

-- The program has received the large object behind the 16 header bytes of pages that were unused,
-- which are as many as `size` and the header need, or one more; no other page has changed.
pub record BigReceived (own : Own) (s : Process) (size a : ℕ) (s' : Process) : Type 0 where
  pub placed : a ≡ page s.large_obj_next_page * 4096 + 16
  pub enough : size + 16 ≤ pages_for size * 4096
  pub tight : pages_for size * 4096 ≤ size + 16 + 4096
  pub fresh : (p : ℕ) → Within (page s.large_obj_next_page) (pages_for size) p → own p ≡ unused
  pub free' : ℕ → List ℕ
  pub inv :
      Inv
        (assign_range own
          (page s.large_obj_next_page)
          (pages_for size)
          (big (page s.large_obj_next_page) (pages_for size)))
        free'
        s'
  pub others :
      (p : ℕ) → Outside (page s.large_obj_next_page) (pages_for size) p → SamePage p s.vm s'.vm
  pub counted : s'.num_mappings ≡ add_size s.num_mappings 1

-- mmap refuses the pages of the large object.
abbrev pub NoPages : System → Process → ℕ → Type 0
NoPages k s size =
    (um : Vm) × (k.mmap_anonymous s.large_obj_next_page (pages_for size * 4096) s.vm ≡ (none, um))

module _ {k : System} (law : IsLawful k) {own : Own} {free : ℕ → List ℕ} {s : Process}
    (inv : Inv own free s) (size : ℕ)
    (room : page s.large_obj_next_page + pages_for size ≤ 2 ^ 51) where
  abbrev answer : Option ℕ × Vm
  answer = k.mmap_anonymous s.large_obj_next_page (pages_for size * 4096) s.vm

  abbrev locked_state : Process
  locked_state = record s { g_big_obj_m = true }

  locked : lock_g_big_obj_m s ≡ ok tt locked_state
  unfolding lock_g_big_obj_m
  locked = rw inv.g_big_obj_m_free refl

  locked-Layout : Layout own free locked_state
  locked-Layout = Layout-relock s.g_m true inv.layout

  map_big-BigReceived :
      (r : Option ℕ × Vm)
      → answer ≡ r
      → Ensures (NoPages k s size) (BigReceived own s size) (map_big k (pages_for size) s)
  map_big-BigReceived (none, um) e =
      rw (map_big-refused law locked-Layout (pages_for size) (omega arith) room s locked e)
        (exits (um, e))
  map_big-BigReceived (some v, um) e =
      let f : ℕ = page s.large_obj_next_page in
      let n : ℕ = pages_for size in
      let at : s.large_obj_next_page ≡ f * 4096 = omega (arith, inv.layout.next_aligned) in
      let e' : k.mmap_anonymous (f * 4096) (n * 4096) s.vm ≡ (some v, um) =
        subst (λ t. k.mmap_anonymous t (n * 4096) s.vm ≡ (some v, um)) at e in
      let m : Mapped f n s.vm v um = law.mmap_anonymous-ok f n s.vm e' in
      let zero = law.mmap_anonymous-zero f n s.vm e' in
      rw (map_big-ok law locked-Layout n (omega arith) room s locked e m) (
        returns (record {
          placed = refl;
          enough = omega arith;
          tight = omega arith;
          fresh = λ p w. inv.layout.unused_big p w.0;
          free' = free;
          inv = record {
            layout =
                Layout-relock s.g_m false
                  (grown-Layout law locked-Layout n (omega arith) room m zero);
            g_m_free = inv.g_m_free;
            g_big_obj_m_free = refl;
          };
          others = headed-Outside m zero (omega arith) room;
          counted = refl;
        }))

-- A call of xxmalloc for more than 2048 bytes, in a state of the invariant and if the pages wanted end
-- below 2^63, returns an object that is `BigReceived`, with the invariant again and one more mapping
-- counted, or ends the process with exit(1) because mmap refused the pages.
pub xxmalloc-BigReceived :
    {k : System} {own : Own} {free : ℕ → List ℕ} {s : Process} (size : ℕ)
    → IsLawful k
    → Inv own free s
    → 2048 < size
    → page s.large_obj_next_page + pages_for size ≤ 2 ^ 51
    → Ensures (NoPages k s size) (BigReceived own s size) (xxmalloc k size s)
unfolding xxmalloc xxmalloc_big
xxmalloc-BigReceived {k} {s} size law inv large room =
    let test : ltb 2048 size ≡ true = ground arith in
    let count : add_size size 16 / 4096 + 1 ≡ pages_for size = omega arith in
    rw (ensure_init_ready k s inv.layout.ready, test, count)
      (map_big-BigReceived law inv size room
        (k.mmap_anonymous s.large_obj_next_page (pages_for size * 4096) s.vm) refl)
