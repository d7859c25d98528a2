-- ===== src/Safety/Use.antt =====
-- The program writes into an object that it owns.
use mathlib.Core.Path.{subst, fun_ext}
use nuaf.Prelude.{ℕ, ◌+◌, ◌*◌, ◌≤◌, ◌<◌, ◌≡◌, ◌≢◌, refl, ◌∙◌, ap, inl, List, arith}
use nuaf.Memory.{Vm, page, write}
use nuaf.Memory.Bytes.{mapped-write, read-write_apart}
use nuaf.System.{SamePage}
use nuaf.Process.{Process, ok, store}
use nuaf.Process.Access.{store_ok, SamePage-write}
use nuaf.Freelist.{block_size}
use nuaf.Ownership.{Status, live, Own, assign, IsObject, Layout, Inv}
use nuaf.Ownership.Frame.{Apart-of}
use nuaf.Safety.Assign.{IsObject-of_live, Holds-assign, whole-assign, Chain-assign}

assign_same : (own : Own) (q : ℕ) (st : Status) → own q ≡ st → assign own q st ≡ own
assign_same own q st e = fun_ext λ p. ground arith

module _ {own : Own} {free : ℕ → List ℕ} {s : Process} (l : Layout own free s) (a b w x v : ℕ)
    (now : own (page a) ≡ live a b) (lo : a ≤ x) (hi : x + w ≤ a + block_size b)
    (some : 0 < w) where
  owned : IsObject s.vm (page a) a b
  owned = IsObject-of_live (own (page a)) (l.holds (page a)) now

  abbrev after : Vm
  after = write w x v s.vm

  after-others : (p : ℕ) → p ≢ page a → SamePage p s.vm after
  after-others =
      SamePage-write w x (page a) v s.vm (omega (arith, owned.in_page))
        (omega (arith, owned.in_page))

  after-IsObject : IsObject after (page a) a b
  after-IsObject = record {
    above = owned.above;
    below = owned.below;
    page_of = refl;
    block_type = owned.block_type;
    behind_header = owned.behind_header;
    on_grid = owned.on_grid;
    in_page = owned.in_page;
    mapped = mapped-write w x v s.vm (page a) ∙ owned.mapped;
    header =
        read-write_apart 4 (page a * 4096) w x v s.vm (inl (omega (arith, owned.behind_header)))
        ∙ owned.header;
  }

  written-Layout : Layout (assign own (page a) (live a b)) free (record s { vm = after })
  written-Layout =
      let st = live a b in
      let same = assign_same own (page a) st now in
      record {
        ready = l.ready;
        high_aligned = l.high_aligned;
        high_above = l.high_above;
        high_below = l.high_below;
        next_aligned = l.next_aligned;
        next_above = l.next_above;
        slots = l.slots;
        chains = λ c h.
            Chain-assign l (page a) st owned.below after-others c (s.g_flsts c).top_of_stack
              (free c)
              (Apart-of own s.vm (page a) c (s.g_flsts c).top_of_stack (free c)
                (λ y e. absurd (cc now)) (l.chains c h))
              (l.chains c h);
        holds = Holds-assign l (page a) st owned.below after-others after-IsObject;
        unused_small = λ p from to. ap (λ (o : Own). o p) same ∙ l.unused_small p from to;
        unused_big = λ p from. ap (λ (o : Own). o p) same ∙ l.unused_big p from;
        whole = whole-assign l (page a) st owned.below after-others (λ f n e. absurd (cc));
      }

  pub store-Layout :
      (store w x v s ≡ ok tt (record s { vm = after })) × Layout own free (record s { vm = after })
  store-Layout = (
    store_ok w x (page a) s (omega (arith, owned.in_page)) some (omega (arith, owned.in_page)) v
        owned.mapped,
    subst (λ (o : Own). Layout o free (record s { vm = after }))
        (assign_same own (page a) (live a b) now) written-Layout,
  )

-- A store of any bytes inside a small object that the program owns succeeds, keeps the invariant,
-- writes these bytes, and changes no other page.
pub store-Inv :
    {own : Own} {free : ℕ → List ℕ} {s : Process} (a b w x v : ℕ)
    → Inv own free s
    → own (page a) ≡ live a b
    → a ≤ x
    → x + w ≤ a + block_size b
    → 0 < w
    → (s' : Process) × (store w x v s ≡ ok tt s')
      × Inv own free s'
      × ((p : ℕ) → p ≢ page a → SamePage p s.vm s'.vm)
      × (s' ≡ record s { vm = write w x v s.vm })
store-Inv {s} a b w x v inv now lo hi some =
    let (run, layout) = store-Layout inv.layout a b w x v now lo hi some in
    (
      record s { vm = write w x v s.vm },
      run,
      record { layout = layout; g_m_free = inv.g_m_free; g_big_obj_m_free = inv.g_big_obj_m_free },
      after-others inv.layout a b w x v now lo hi some,
      refl,
    )
