-- ===== src/Safety/Retire.antt =====
-- The two halves of `xxfree` for a small object, as changes of ownership: the page of the object is
-- given up, and the object comes back, idle, in a fresh page.
use native.Mathlib.Decide.{ℕ_discrete}
use mathlib.Core.Path.{subst}
use nuaf.Prelude.{
  ℕ, ◌<◌, ◌≡◌, ◌≢◌, refl, sym, ◌∙◌, ap, true, false, List, ◌∷◌, arith, ◌==◌, if◌then◌else◌,
}
use nuaf.Memory.{Vm, page, read}
use nuaf.Words.{add_size}
use nuaf.System.{SamePage}
use nuaf.Process.{Process}
use nuaf.Freelist.{set_flst}
use nuaf.Freelist.Carving.{IsSlot}
use nuaf.Ownership.{unused, live, idle, retired, Own, assign, IsObject, Chain, Apart, Layout}
use nuaf.Ownership.Frame.{Apart-of}
use nuaf.Safety.Assign.{
  assign_self, assign_ne, IsObject-of_live, Holds-assign, whole-assign, Chain-assign,
}

module _ {own : Own} {free : ℕ → List ℕ} {s : Process} (l : Layout own free s) where
  -- A live object's page `q` is no longer mapped in `wm`.
  pub retire-Layout :
      (q a b : ℕ) {wm : Vm}
      → own q ≡ live a b
      → wm.mapped q ≡ false
      → ((p : ℕ) → p ≢ q → SamePage p s.vm wm)
      → Layout (assign own q retired) free (record s { vm = wm })
  retire-Layout q a b {wm} now gone same =
      let o : IsObject s.vm q a b = IsObject-of_live (own q) (l.holds q) now in
      record {
        ready = l.ready;
        high_aligned = l.high_aligned;
        high_above = l.high_above;
        high_below = l.high_below;
        next_aligned = l.next_aligned;
        next_above = l.next_above;
        slots = l.slots;
        chains = λ c h.
            Chain-assign l q retired o.below same c (s.g_flsts c).top_of_stack (free c)
              (Apart-of own s.vm q c (s.g_flsts c).top_of_stack (free c) (λ x e. absurd (cc now))
                (l.chains c h))
              (l.chains c h);
        holds = Holds-assign l q retired o.below same gone;
        unused_small = λ p lo hi.
            assign_ne own q retired p (λ e. used e (l.unused_small p lo hi))
            ∙ l.unused_small p lo hi;
        unused_big =
            λ p lo. assign_ne own q retired p (λ e. used e (l.unused_big p lo)) ∙ l.unused_big p lo;
        whole = whole-assign l q retired o.below same (λ f n e. absurd (cc));
      }
    where
      used : {p : ℕ} → p ≡ q → own p ≡ unused → ⊥
      used e u = cc (now, ap own e)

-- The state after the object `o` of block type `b` was pushed, and the lists of the freelists.
abbrev pub pushed : Process → ℕ → ℕ → Vm → Process
pushed s b o wm = record s {
  vm = wm;
  high_vaddr = add_size s.high_vaddr 4096;
  g_flsts = set_flst s.g_flsts b (record (s.g_flsts b) { top_of_stack = o });
}

abbrev pub pushed_free : (ℕ → List ℕ) → ℕ → ℕ → ℕ → List ℕ
pushed_free free b o c = if c == b then o ∷ free b else free c

module _ {own : Own} {free : ℕ → List ℕ} {s : Process} (l : Layout own free s) (b o : ℕ) {wm : Vm}
    (room : s.high_vaddr < 0xFFFF000000) (obj : IsObject wm (page s.high_vaddr) o b)
    (link : read 8 o wm ≡ (s.g_flsts b).top_of_stack)
    (same : (p : ℕ) → p ≢ page s.high_vaddr → SamePage p s.vm wm) where
  abbrev fresh_page : ℕ
  fresh_page = page s.high_vaddr

  fresh_page-unused : own fresh_page ≡ unused
  fresh_page-unused = l.unused_small fresh_page (omega arith) (omega arith)

  Apart-all : (c : ℕ) → c < 8 → Apart fresh_page (free c)
  Apart-all c h =
      Apart-of own s.vm fresh_page c (s.g_flsts c).top_of_stack (free c)
        (λ x e. absurd (cc fresh_page-unused)) (l.chains c h)

  kept-Chain :
      (c : ℕ)
      → c < 8
      → Chain (assign own fresh_page (idle o b)) wm c (s.g_flsts c).top_of_stack (free c)
  kept-Chain c h =
      Chain-assign l fresh_page (idle o b) (omega arith) same c (s.g_flsts c).top_of_stack (free c)
        (Apart-all c h) (l.chains c h)

  pushed-slots : (c : ℕ) → c < 8 → IsSlot c ((pushed s b o wm).g_flsts c).high_canonical_addr
  pushed-slots c h = rw kept (l.slots c h)
    where
      kept : ((pushed s b o wm).g_flsts c).high_canonical_addr ≡ (s.g_flsts c).high_canonical_addr
      kept = ground arith

  abbrev PushedChain : ℕ → Type 0
  PushedChain c =
      Chain (assign own fresh_page (idle o b)) wm c ((pushed s b o wm).g_flsts c).top_of_stack
        (pushed_free free b o c)

  new_chain : PushedChain b
  new_chain =
      let eq : (b == b) ≡ true = ground arith in
      rw eq (
        refl,
        subst (λ t. assign own fresh_page (idle o b) t ≡ idle o b) (sym obj.page_of)
            (assign_self own fresh_page (idle o b)),
        subst (λ t. Apart t (free b)) (sym obj.page_of) (Apart-all b obj.block_type),
        subst (λ t. Chain (assign own fresh_page (idle o b)) wm b t (free b)) (sym link)
            (kept-Chain b obj.block_type),
      )

  pushed-chains : (c : ℕ) → c < 8 → PushedChain c
  pushed-chains c h = elim (ℕ_discrete c b) [
    | yes e ↦ subst PushedChain (sym e) new_chain
    | no ne ↦ let ne' : (c == b) ≡ false = ground arith in rw ne' (kept-Chain c h)
  ]

  pub pushed-Layout :
      Layout (assign own fresh_page (idle o b)) (pushed_free free b o) (pushed s b o wm)
  pushed-Layout =
      let st = idle o b in
      record {
        ready = l.ready;
        high_aligned = omega (arith, l.high_aligned);
        high_above = omega (arith, l.high_above);
        high_below = omega (arith, l.high_aligned);
        next_aligned = l.next_aligned;
        next_above = l.next_above;
        slots = pushed-slots;
        chains = pushed-chains;
        holds = Holds-assign l fresh_page st (omega arith) same obj;
        unused_small = λ p lo hi.
            assign_ne own fresh_page st p (omega (arith, l.high_aligned))
            ∙ l.unused_small p (omega (arith, l.high_aligned)) hi;
        unused_big =
            λ p lo. assign_ne own fresh_page st p (omega (arith, l.next_above)) ∙ l.unused_big p lo;
        whole = whole-assign l fresh_page st (omega arith) same (λ f n e. absurd (cc));
      }
