-- ===== src/Safety/BigFree.antt =====
-- `xxfree` at a pointer into a large object that the program owns.
use nuaf.Prelude.{
  ℕ, ◌-◌, ◌*◌, ◌%◌, ◌^◌, ◌<◌, ◌≡◌, refl, ap, ◌∙◌, inl, inr, true, false, List, arith, ◌==◌,
}
use nuaf.Memory.{Vm, page}
use nuaf.Words.{sub_size, page_start, round_up}
use nuaf.Words.Rounding.{page_start-page}
use nuaf.System.{System, IsLawful, Within, Outside, SamePage}
use nuaf.Process.{Process, ok}
use nuaf.Process.Ensures.{Ensures, returns}
use nuaf.Allocator.{is_large, free_big, xxfree}
use nuaf.Ownership.{unused, retired, big, Own, Layout, Inv}
use nuaf.Safety.Malloc.{ensure_init_ready}
use nuaf.Safety.Range.{
  assign_range, range_sides, assign_range-Outside, Outside-whole, Holds-range, Chain-range,
  whole-range,
}
use nuaf.Safety.Walk.{head, walk_interior}

-- Every page of the large object is retired and unmapped, no other page has changed, and the
-- invariant holds.
pub record BigFreed (own : Own) (s : Process) (f n : ℕ) (u : Unit {0}) (s' : Process) : Type 0 where
  pub free' : ℕ → List ℕ
  pub inv : Inv (assign_range own f n retired) free' s'
  pub others : (p : ℕ) → Outside f n p → SamePage p s.vm s'.vm
  pub counted : s'.num_mappings ≡ sub_size s.num_mappings 1

module _ {k : System} (law : IsLawful k) {own : Own} {free : ℕ → List ℕ} {s : Process}
    (l : Layout own free s) (f n : ℕ) (now : own f ≡ big f n) (some_pages : 0 < n) {um : Vm}
    (unmapped : k.munmap (f * 4096) (n * 4096) s.vm ≡ (true, um)) where
  abbrev shrunk : Process
  shrunk = record s { vm = um; num_mappings = sub_size s.num_mappings 1 }

  -- `munmap` is given exactly the pages that `mmap` was.
  pub free_big-ok : free_big k (f * 4096) (n * 4096 - 16) s ≡ ok tt shrunk
  unfolding free_big round_up
  free_big-ok =
      let o = head l f n now some_pages in
      let start : page_start (f * 4096) ≡ f * 4096 =
        page_start-page (f * 4096) (omega (arith, o.room))
        ∙ ap (λ p. p * 4096) (let e : page (f * 4096) ≡ f = omega arith in e) in
      let len : round_up (n * 4096 - 16) 4096 % 2 ^ 64 ≡ n * 4096 = ground (arith, o.room) in
      rw (start, len, unmapped) refl

  pub shrunk-Layout : Layout (assign_range own f n retired) free shrunk
  shrunk-Layout =
      let o = head l f n now some_pages in
      let (gone, same) = law.munmap-ok f n s.vm unmapped in
      record {
        ready = l.ready;
        high_aligned = l.high_aligned;
        high_above = l.high_above;
        high_below = l.high_below;
        next_aligned = l.next_aligned;
        next_above = l.next_above;
        slots = l.slots;
        chains = Chain-range l f n retired o.above same (Outside-whole l f n now);
        holds = Holds-range l f n retired o.above same (Outside-whole l f n now) gone;
        unused_small = λ p lo hi.
            assign_range-Outside own f n retired p (inl (omega (arith, o.above)))
            ∙ l.unused_small p lo hi;
        unused_big = λ p lo.
            assign_range-Outside own f n retired p (unused_outside p (l.unused_big p lo))
            ∙ l.unused_big p lo;
        whole =
            whole-range l f n retired o.above same (Outside-whole l f n now)
              (λ f' n' e. absurd (cc));
      }
    where
      unused_outside : (p : ℕ) → own p ≡ unused → Outside f n p
      unused_outside p e = elim (range_sides f n p) [
        | inl inside ↦
            let here : own p ≡ big f n = l.whole f f n now p inside in absurd (cc (here, e))
        | inr outside ↦ outside
      ]

-- A call of xxfree with any pointer `q` into a large object that the program owns, header included,
-- in a state of the invariant and if munmap succeeds, returns, and the object is `BigFreed`: all its
-- pages are gone and one mapping less is counted.
pub xxfree-BigFreed :
    {k : System} {own : Own} {free : ℕ → List ℕ} {s : Process} (f n q : ℕ) {um : Vm}
    → IsLawful k
    → Inv own free s
    → own f ≡ big f n
    → Within f n (page q)
    → k.munmap (f * 4096) (n * 4096) s.vm ≡ (true, um)
    → Ensures ⊥ (BigFreed own s f n) (xxfree k q s)
unfolding xxfree
xxfree-BigFreed {k} {own} {free} {s} f n q law inv now inside unmapped =
    let some_pages : 0 < n = omega arith in
    let o = head inv.layout f n now some_pages in
    let (usable, start) = walk_interior inv.layout f n now some_pages q inside in
    let not_null : (q == 0) ≡ false = ground (arith, o.above) in
    let high : is_large (f * 4096) ≡ true = ground (arith, o.above, o.room) in
    rw
      (
        ensure_init_ready k s inv.layout.ready,
        not_null,
        usable,
        start (n * 4096 - 16),
        high,
        free_big-ok law inv.layout f n now some_pages unmapped,
      )
      (returns (record {
        free' = free;
        inv = record {
          layout = shrunk-Layout law inv.layout f n now some_pages unmapped;
          g_m_free = inv.g_m_free;
          g_big_obj_m_free = inv.g_big_obj_m_free;
        };
        others = (law.munmap-ok f n s.vm unmapped).1;
        counted = refl;
      }))
