-- ===== src/Safety/Range.antt =====
-- A range of pages of the large region changes hands.
use native.Mathlib.Decide.{dec_lt}
use mathlib.Core.Path.{subst}
use nuaf.Prelude.{
  ℕ, ◌+◌, ◌*◌, ◌%◌, ◌≤◌, ◌<◌, ◌≡◌, refl, sym, ◌∙◌, ◌⊎◌, inl, inr, ◌&&◌, List, arith, ltb, leb,
  if◌then◌else◌,
}
use nuaf.Memory.{Vm}
use nuaf.System.{Within, Outside, SamePage}
use nuaf.Process.{Process}
use nuaf.Ownership.{
  Status, unused, live, idle, retired, big, Own, large_first, IsObject, Holds, Chain, Layout,
}
use nuaf.Ownership.Frame.{IsObject-frame, IsBig-frame, Chain-keep}
use nuaf.Safety.Assign.{IsObject-of_idle, IsBig-of_eq}

abbrev pub assign_range : Own → ℕ → ℕ → Status → Own
assign_range own f n st p = if leb f p && ltb p (f + n) then st else own p

pub range_sides : (f n p : ℕ) → Within f n p ⊎ Outside f n p
range_sides f n p = elim (dec_lt p f) [
  | yes below ↦ inr (inl below)
  | no above ↦ elim (dec_lt p (f + n)) [
    | yes inside ↦ inl (omega arith, inside)
    | no beyond ↦ inr (inr (omega arith))
  ]
]

pub assign_range_within :
    (own : Own) (f n : ℕ) (st : Status) (p : ℕ) → Within f n p → assign_range own f n st p ≡ st
assign_range_within own f n st p w = ground arith

pub assign_range-Outside :
    (own : Own) (f n : ℕ) (st : Status) (p : ℕ) → Outside f n p → assign_range own f n st p ≡ own p
assign_range-Outside own f n st p o = ground arith

-- The pages of two large objects are the same or do not meet.
pub Outside-whole :
    {own : Own} {free : ℕ → List ℕ} {s : Process} (l : Layout own free s) (f n : ℕ)
    → own f ≡ big f n
    → (p f' n' : ℕ) → Outside f n p
    → own p ≡ big f' n'
    → (q : ℕ) → Within f' n' q
    → Outside f n q
Outside-whole {own} l f n now p f' n' out e q w = elim (range_sides f n q) [
  | inl inside ↦
      let here : own q ≡ big f n = l.whole f f n now q inside in
      let there : own q ≡ big f' n' = l.whole p f' n' e q w in
      let same : f ≡ f' = cc (here, there) in
      let same' : n ≡ n' = cc (here, there) in
      let within : Within f n p = rw (same, same') (IsBig-of_eq (own p) (l.holds p) e).within in
      absurd (omega (arith, out, within))
  | inr outside ↦ outside
]

module _ {own : Own} {free : ℕ → List ℕ} {s : Process} (l : Layout own free s) (f n : ℕ)
    (st : Status) {wm : Vm} (above : large_first ≤ f)
    (same : (p : ℕ) → Outside f n p → SamePage p s.vm wm)
    (apart : (p f' n' : ℕ)
      → Outside f n p
      → own p ≡ big f' n'
      → (q : ℕ) → Within f' n' q
      → Outside f n q) where
  -- What holds of a page outside the range still holds.
  Outside-keep : (p : ℕ) → Outside f n p → (t : Status) → own p ≡ t → Holds s.vm p t → Holds wm p t
  Outside-keep p out unused e h = tt
  Outside-keep p out (live a b) e h = IsObject-frame (same p out) h
  Outside-keep p out (idle a b) e h = IsObject-frame (same p out) h
  Outside-keep p out retired e h = (same p out).mapped ∙ h
  Outside-keep p out (big f' n') e h =
      IsBig-frame (same f' (apart p f' n' out e f' (omega (arith, h.within)))) (same p out) h

  pub Holds-range :
      ((p : ℕ) → Within f n p → Holds wm p st) → (p : ℕ) → Holds wm p (assign_range own f n st p)
  Holds-range inside p = elim (range_sides f n p) [
    | inl w ↦ subst (Holds wm p) (sym (assign_range_within own f n st p w)) (inside p w)
    | inr out ↦
        subst (Holds wm p) (sym (assign_range-Outside own f n st p out))
          (Outside-keep p out (own p) refl (l.holds p))
  ]

  pub Chain-range :
      (b : ℕ) → b < 8 → Chain (assign_range own f n st) wm b (s.g_flsts b).top_of_stack (free b)
  Chain-range b h =
      Chain-keep b (s.g_flsts b).top_of_stack (free b)
        (λ p a e.
          let o : IsObject s.vm p a b = IsObject-of_idle (own p) (l.holds p) e in
          let out : Outside f n p = inl (omega (arith, o.below)) in
          (assign_range-Outside own f n st p out, same p out, o))
        (l.chains b h)

  pub whole-range :
      ((f' n' : ℕ) → st ≡ big f' n' → (f' ≡ f) × (n' ≡ n))
      → (p f' n' : ℕ) → assign_range own f n st p ≡ big f' n'
      → (q : ℕ) → Within f' n' q
      → assign_range own f n st q ≡ big f' n'
  whole-range exact p f' n' e q w = elim (range_sides f n p) [
    | inl inside ↦
        let e' : st ≡ big f' n' = sym (assign_range_within own f n st p inside) ∙ e in
        let (ef, en) = exact f' n' e' in assign_range_within own f n st q (omega arith) ∙ e'
    | inr out ↦
        let e' : own p ≡ big f' n' = sym (assign_range-Outside own f n st p out) ∙ e in
        assign_range-Outside own f n st q (apart p f' n' out e' q w) ∙ l.whole p f' n' e' q w
  ]

  -- A range changes hands, and the next large object comes behind it and where it came before.
  pub Layout-range :
      (next c : ℕ)
      → next % 4096 ≡ 0
      → s.large_obj_next_page ≤ next
      → (f + n) * 4096 ≤ next
      → ((p : ℕ) → Within f n p → Holds wm p st)
      → ((f' n' : ℕ) → st ≡ big f' n' → (f' ≡ f) × (n' ≡ n))
      → Layout
          (assign_range own f n st)
          free
          (record s { vm = wm; num_mappings = c; large_obj_next_page = next })
  Layout-range next c aligned grows behind inside exact = record {
    ready = l.ready;
    high_aligned = l.high_aligned;
    high_above = l.high_above;
    high_below = l.high_below;
    next_aligned = aligned;
    next_above = omega (arith, l.next_above);
    slots = l.slots;
    chains = Chain-range;
    holds = Holds-range inside;
    unused_small =
        λ p lo hi. assign_range-Outside own f n st p (inl (omega arith)) ∙ l.unused_small p lo hi;
    unused_big = λ p lo.
        assign_range-Outside own f n st p (inr (omega arith)) ∙ l.unused_big p (omega arith);
    whole = whole-range exact;
  }
