-- ===== src/Safety/UseBig.antt =====
-- The program writes into a large object that it owns.
use mathlib.Core.Path.{subst, fun_ext}
use nuaf.Prelude.{ℕ, ◌+◌, ◌*◌, ◌%◌, ◌≤◌, ◌<◌, ◌≡◌, ◌≢◌, refl, sym, ◌∙◌, ap, inl, inr, List, arith}
use nuaf.Memory.{Vm, page, read, write}
use nuaf.Memory.Bytes.{mapped-write, read-write_apart}
use nuaf.System.{Within, Outside, SamePage}
use nuaf.Process.{Process, ok, store}
use nuaf.Process.Access.{store_ok, SamePage-write}
use nuaf.Allocator.{large_obj_start_magic}
use nuaf.Ownership.{big, Own, IsBig, Layout, Inv}
use nuaf.Safety.Assign.{IsBig-of_eq}
use nuaf.Safety.Range.{
  assign_range, range_sides, assign_range_within, assign_range-Outside, Outside-whole, Holds-range,
  Chain-range, whole-range,
}

module _ {own : Own} {free : ℕ → List ℕ} {s : Process} (l : Layout own free s) (f n w x v : ℕ)
    (now : own f ≡ big f n) (lo : f * 4096 + 16 ≤ x) (hi : x < (f + n) * 4096)
    (in_page : x % 4096 + w ≤ 4096) (some : 0 < w)
    (no_magic : (p : ℕ)
      → Within f n p
      → p ≢ f
      → read 8 (p * 4096) (write w x v s.vm) ≢ large_obj_start_magic) where
  abbrev after : Vm
  after = write w x v s.vm

  owned : (p : ℕ) → Within f n p → IsBig s.vm p f n
  owned p inside = IsBig-of_eq (own p) (l.holds p) (l.whole f f n now p inside)

  touched : IsBig s.vm (page x) f n
  touched = owned (page x) (omega arith, omega arith)

  after-others : (p : ℕ) → p ≢ page x → SamePage p s.vm after
  after-others = SamePage-write w x (page x) v s.vm (omega arith) (omega arith)

  after-Outside : (p : ℕ) → Outside f n p → SamePage p s.vm after
  after-Outside p out = after-others p (omega (arith, out, touched.within))

  after-IsBig : (p : ℕ) → Within f n p → IsBig after p f n
  after-IsBig p inside =
      let o = owned p inside in
      record {
        above = o.above;
        room = o.room;
        within = o.within;
        mapped = mapped-write w x v s.vm p ∙ o.mapped;
        magic = read-write_apart 8 (f * 4096) w x v s.vm (inl (omega arith)) ∙ o.magic;
        count = read-write_apart 8 (f * 4096 + 8) w x v s.vm (inl (omega arith)) ∙ o.count;
        rest = no_magic p inside;
      }

  assign_range_same : assign_range own f n (big f n) ≡ own
  assign_range_same = fun_ext λ p. elim (range_sides f n p) [
    | inl inside ↦ assign_range_within own f n (big f n) p inside ∙ sym (l.whole f f n now p inside)
    | inr out ↦ assign_range-Outside own f n (big f n) p out
  ]

  written-Layout : Layout (assign_range own f n (big f n)) free (record s { vm = after })
  written-Layout =
      let st = big f n in
      let apart = Outside-whole l f n now in
      record {
        ready = l.ready;
        high_aligned = l.high_aligned;
        high_above = l.high_above;
        high_below = l.high_below;
        next_aligned = l.next_aligned;
        next_above = l.next_above;
        slots = l.slots;
        chains = Chain-range l f n st touched.above after-Outside apart;
        holds = Holds-range l f n st touched.above after-Outside apart after-IsBig;
        unused_small =
            λ p from to. ap (λ (o : Own). o p) assign_range_same ∙ l.unused_small p from to;
        unused_big = λ p from. ap (λ (o : Own). o p) assign_range_same ∙ l.unused_big p from;
        whole = whole-range l f n st touched.above after-Outside apart (λ f' n' e. (cc, cc));
      }

  pub big_store-Layout :
      (store w x v s ≡ ok tt (record s { vm = after })) × Layout own free (record s { vm = after })
  big_store-Layout = (
    store_ok w x (page x) s (omega arith) some (omega arith) v touched.mapped,
    subst (λ (o : Own). Layout o free (record s { vm = after })) assign_range_same written-Layout,
  )

-- A store inside one page of a large object that the program owns, behind its header and such that no
-- later page of the object begins with the magic word afterwards, succeeds, keeps the invariant,
-- writes these bytes, and changes no other page.
pub big_store-Inv :
    {own : Own} {free : ℕ → List ℕ} {s : Process} (f n w x v : ℕ)
    → Inv own free s
    → own f ≡ big f n
    → f * 4096 + 16 ≤ x
    → x < (f + n) * 4096
    → x % 4096 + w ≤ 4096
    → 0 < w
    → ((p : ℕ)
        → Within f n p
        → p ≢ f
        → read 8 (p * 4096) (write w x v s.vm) ≢ large_obj_start_magic)
    → (s' : Process) × (store w x v s ≡ ok tt s')
      × Inv own free s'
      × ((p : ℕ) → p ≢ page x → SamePage p s.vm s'.vm)
      × (s' ≡ record s { vm = write w x v s.vm })
big_store-Inv {s} f n w x v inv now lo hi in_page some no_magic =
    let (run, layout) = big_store-Layout inv.layout f n w x v now lo hi in_page some no_magic in
    (
      record s { vm = write w x v s.vm },
      run,
      record { layout = layout; g_m_free = inv.g_m_free; g_big_obj_m_free = inv.g_big_obj_m_free },
      after-others inv.layout f n w x v now lo hi in_page some no_magic,
      refl,
    )
