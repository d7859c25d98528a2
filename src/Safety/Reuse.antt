-- ===== src/Safety/Reuse.antt =====
-- `freelist_pop` with objects on the freelist: the top one goes back to the program.
use native.Mathlib.Decide.{ℕ_discrete}
use nuaf.Prelude.{
  ℕ, ◌<◌, ◌≡◌, ◌≢◌, refl, ◌∙◌, ap, true, false, List, ◌∷◌, arith, ◌==◌, if◌then◌else◌,
}
use nuaf.Memory.{Vm, page, read}
use nuaf.System.{SamePage}
use nuaf.Process.{Process, ok}
use nuaf.Process.Access.{load_ok}
use nuaf.Freelist.{set_flst, reuse}
use nuaf.Freelist.Carving.{IsSlot}
use nuaf.Ownership.{unused, live, idle, Own, assign, IsObject, Chain, Layout}
use nuaf.Ownership.Frame.{Apart-of, block_size_bounds}
use nuaf.Safety.Files.{IsSteady}
use nuaf.Safety.Assign.{IsObject-of_idle, assign_ne, Holds-assign, whole-assign, Chain-assign}

-- The state after the object `a` was popped.
abbrev pub popped : Process → ℕ → ℕ → Process
popped s b a = record s {
  g_flsts = set_flst s.g_flsts b (record (s.g_flsts b) { top_of_stack = read 8 a s.vm });
}

-- The list of the freelists after that.
abbrev pub popped_free : (ℕ → List ℕ) → ℕ → List ℕ → ℕ → List ℕ
popped_free free b xs c = if c == b then xs else free c

pub same_page : (vm : Vm) (p : ℕ) → SamePage p vm vm
same_page vm p = record { mapped = refl; bytes = λ a e. refl }

module _ {own : Own} {free : ℕ → List ℕ} {s : Process} (inv : Layout own free s) (b : ℕ)
    (small : b < 8) (a : ℕ) (xs : List ℕ)
    (chain : Chain own s.vm b (s.g_flsts b).top_of_stack (a ∷ xs)) where
  pub top-IsObject : IsObject s.vm (page a) a b
  top-IsObject = IsObject-of_idle (own (page a)) (inv.holds (page a)) chain.1

  pub reuse_lem : reuse b s ≡ ok a (popped s b a)
  unfolding reuse
  reuse_lem =
      rw
        (
          chain.0,
          load_ok 8 a (page a) s refl (omega arith)
              (omega (arith, top-IsObject.in_page, block_size_bounds b small)) top-IsObject.mapped,
        )
        refl

  popped-slots : (c : ℕ) → c < 8 → IsSlot c ((popped s b a).g_flsts c).high_canonical_addr
  popped-slots c h = rw kept (inv.slots c h)
    where
      kept : ((popped s b a).g_flsts c).high_canonical_addr ≡ (s.g_flsts c).high_canonical_addr
      kept = ground arith

  popped-chains :
      (c : ℕ)
      → c < 8
      → Chain
          (assign own (page a) (live a b))
          s.vm
          c
          ((popped s b a).g_flsts c).top_of_stack
          (popped_free free b xs c)
  popped-chains c h = elim (ℕ_discrete c b) [
    | yes e ↦
        let same : (c == b) ≡ true = ground arith in
        rw (same, e)
          (Chain-assign inv (page a) (live a b) top-IsObject.below (λ p ne. same_page s.vm p) b
            (read 8 a s.vm) xs chain.2 chain.3)
    | no ne ↦
        let other : (c == b) ≡ false = ground arith in
        rw other (
          Chain-assign inv (page a) (live a b) top-IsObject.below (λ p ne. same_page s.vm p) c
            (s.g_flsts c).top_of_stack (free c)
            (Apart-of own s.vm (page a) c (s.g_flsts c).top_of_stack (free c)
              (λ o e. absurd (ne (idle_type o e))) (inv.chains c h))
            (inv.chains c h))
  ]
    where
      idle_type : (o : ℕ) → own (page a) ≡ idle o c → c ≡ b
      idle_type o e = cc (chain.1)

  pub popped-IsSteady : IsSteady 8 s (popped s b a)
  popped-IsSteady = record { same_file = refl; files = refl; carved = λ c h. omega (arith, kept c) }
    where
      kept :
          (c : ℕ)
          → ((popped s b a).g_flsts c).high_canonical_addr ≡ (s.g_flsts c).high_canonical_addr
      kept c = ground arith

  pub popped-Layout : Layout (assign own (page a) (live a b)) (popped_free free b xs) (popped s b a)
  popped-Layout =
      let st = live a b in
      let same = λ (p : ℕ) (ne : p ≢ page a). same_page s.vm p in
      let idle_now = chain.1 in
      record {
        ready = inv.ready;
        high_aligned = inv.high_aligned;
        high_above = inv.high_above;
        high_below = inv.high_below;
        next_aligned = inv.next_aligned;
        next_above = inv.next_above;
        slots = popped-slots;
        chains = popped-chains;
        holds = Holds-assign inv (page a) st top-IsObject.below same top-IsObject;
        unused_small = λ p lo hi.
            assign_ne own (page a) st p (λ e. used e (inv.unused_small p lo hi))
            ∙ inv.unused_small p lo hi;
        unused_big = λ p lo.
            assign_ne own (page a) st p (λ e. used e (inv.unused_big p lo)) ∙ inv.unused_big p lo;
        whole = whole-assign inv (page a) st top-IsObject.below same (λ f n e. absurd (cc));
      }
    where
      used : {p : ℕ} → p ≡ page a → own p ≡ unused → ⊥
      used e u = cc (chain.1, ap own e)
