-- ===== src/Safety/Assign.antt =====
-- One page changes hands: the other pages keep what holds of them.
use native.Mathlib.Decide.{ℕ_discrete}
use mathlib.Core.Path.{subst}
use nuaf.Prelude.{ℕ, ◌≤◌, ◌<◌, ◌≡◌, ◌≢◌, sym, ◌∙◌, List, arith}
use nuaf.Memory.{Vm}
use nuaf.System.{Within, SamePage}
use nuaf.Process.{Process}
use nuaf.Ownership.{
  Status, unused, live, idle, retired, big, Own, large_first, assign, IsObject, IsBig, Holds, Chain,
  Apart, Layout,
}
use nuaf.Ownership.Frame.{IsObject-frame, IsBig-frame, Chain-frame}

pub assign_self : (own : Own) (q : ℕ) (st : Status) → assign own q st q ≡ st
assign_self own q st = ground arith

pub assign_ne : (own : Own) (q : ℕ) (st : Status) (p : ℕ) → p ≢ q → assign own q st p ≡ own p
assign_ne own q st p ne = ground arith

pub Holds-frame :
    {vm wm : Vm} (q : ℕ)
    → q < large_first
    → ((p : ℕ) → p ≢ q → SamePage p vm wm)
    → (p : ℕ) → p ≢ q
    → (st : Status) → Holds vm p st
    → Holds wm p st
Holds-frame q small same p ne unused h = tt
Holds-frame q small same p ne (live a b) h = IsObject-frame (same p ne) h
Holds-frame q small same p ne (idle a b) h = IsObject-frame (same p ne) h
Holds-frame q small same p ne retired h = (same p ne).mapped ∙ h
Holds-frame q small same p ne (big f n) h =
    IsBig-frame (same f (omega (arith, h.above))) (same p ne) h

pub IsObject-of_idle :
    {vm : Vm} {p a b : ℕ} (st : Status) → Holds vm p st → st ≡ idle a b → IsObject vm p a b
IsObject-of_idle {vm} {p} st h e = subst (Holds vm p) e h

pub IsObject-of_live :
    {vm : Vm} {p a b : ℕ} (st : Status) → Holds vm p st → st ≡ live a b → IsObject vm p a b
IsObject-of_live {vm} {p} st h e = subst (Holds vm p) e h

pub IsBig-of_eq :
    {vm : Vm} {p f n : ℕ} (st : Status) → Holds vm p st → st ≡ big f n → IsBig vm p f n
IsBig-of_eq {vm} {p} st h e = subst (Holds vm p) e h

module _ {own : Own} {free : ℕ → List ℕ} {s : Process} (inv : Layout own free s) where
  -- the change: page `q` of the small region becomes `st` in the address space `wm`
  module _ (q : ℕ) (st : Status) {wm : Vm} (small : q < large_first)
      (same : (p : ℕ) → p ≢ q → SamePage p s.vm wm) where
    pub Holds-assign : Holds wm q st → (p : ℕ) → Holds wm p (assign own q st p)
    Holds-assign h p = elim (ℕ_discrete p q) [
      | yes e ↦
          subst (λ t. Holds wm t (assign own q st t)) (sym e)
            (subst (Holds wm q) (sym (assign_self own q st)) h)
      | no ne ↦
          subst (Holds wm p) (sym (assign_ne own q st p ne))
            (Holds-frame q small same p ne (own p) (inv.holds p))
    ]

    pub whole-assign :
        ((f n : ℕ) → st ≢ big f n)
        → (p f n : ℕ) → assign own q st p ≡ big f n
        → (r : ℕ) → Within f n r
        → assign own q st r ≡ big f n
    whole-assign not_big p f n e r inside = elim (ℕ_discrete p q) [
      | yes at ↦
          absurd (
            not_big f n
              (sym (assign_self own q st) ∙ subst (λ t. assign own q st t ≡ big f n) at e))
      | no ne ↦
          let e' : own p ≡ big f n = sym (assign_ne own q st p ne) ∙ e in
          let above : large_first ≤ f = (IsBig-of_eq (own p) (inv.holds p) e').above in
          assign_ne own q st r (omega arith) ∙ inv.whole p f n e' r inside
    ]

    -- A freelist that does not thread page `q` stays as it is.
    pub Chain-assign :
        (b top : ℕ) (xs : List ℕ)
        → Apart q xs
        → Chain own s.vm b top xs
        → Chain (assign own q st) wm b top xs
    Chain-assign b top xs apart c =
        Chain-frame q b top xs same (assign_ne own q st)
          (λ p a e. IsObject-of_idle (own p) (inv.holds p) e) apart c
