-- ===== src/Threads/Safe.antt =====
-- The invariant of all threads together, and how a step of one thread keeps it.
use native.Mathlib.Decide.{ℕ_discrete}
use mathlib.Core.Path.{subst, subst₂}
use nuaf.Prelude.{
  refl, ℕ, ◌+◌, ◌-◌, ◌*◌, ◌^◌, ◌≤◌, ◌<◌, ◌≡◌, ◌≢◌, sym, ◌∙◌, ap, ◌⊎◌, inl, inr, true, List, arith,
}
use nuaf.Memory.{Vm, page}
use nuaf.System.{Within, SamePage}
use nuaf.Process.{Process}
use nuaf.Ownership.{unused, live, big, Own, large_first, Layout}
use nuaf.Threads.{
  Pc, malloc_lock, malloc_pop, big_lock, big_map, big_unlock, big_header, free_start, free_lock,
  free_move, free_unmap, holds_g_m, holds_g_big_obj_m, update,
}
use nuaf.Threads.Mutex.{Guarded, update_self, update_other}
use nuaf.Threads.World.{World, Freeable, Claims}

-- The pages of a large object that is being made: nobody owns them yet, they are mapped and all zero,
-- and they lie below the ones that come next.
pub record Reserved (own : Own) (s : Process) (v n : ℕ) : Type 0 where
  pub placed : v ≡ page v * 4096
  pub some_pages : 0 < n
  pub above : large_first ≤ page v
  pub room : page v + n ≤ 2 ^ 51
  pub below : (page v + n) * 4096 ≤ s.large_obj_next_page
  pub vacant : (p : ℕ) → Within (page v) n p → own p ≡ unused
  pub mapped : (p : ℕ) → Within (page v) n p → s.vm.mapped p ≡ true
  pub zero : (b : ℕ) → Within (page v) n (page b) → s.vm.byte b ≡ 0

-- What a thread knows where it stands.
abbrev pub Knows : Own → Process → ℕ → Pc → Type 0
Knows own s x (malloc_lock size) = size ≤ 2048
Knows own s x (malloc_pop size) = size ≤ 2048
Knows own s x (big_lock n) = 0 < n
Knows own s x (big_map n) = 0 < n
Knows own s x (big_unlock v n) = Reserved own s v n
Knows own s x (big_header v n) = Reserved own s v n
Knows own s x (free_start q) = (q ≡ 0) ⊎ ((q ≢ 0) × Freeable own x q)
Knows own s x (free_lock a) = (a ≡ x) × ((b : ℕ) × (own (page a) ≡ live a b))
Knows own s x (free_move a) = (a ≡ x) × ((b : ℕ) × (own (page a) ≡ live a b))
Knows own s x (free_unmap a size) =
    (n : ℕ) × (a ≡ x)
    × (a ≡ page a * 4096)
    × (size ≡ n * 4096 - 16)
    × (0 < n)
    × (own (page a) ≡ big (page a) n)
Knows own s x pc = Unit {0}

pub record IsSafe (w : World) : Type 0 where
  pub free : ℕ → List ℕ
  pub layout : Layout w.own free w.process
  pub knows : (t : ℕ) → Knows w.own w.process (w.target t) (w.pc t)
  pub apart :
      (t u p : ℕ) → t ≢ u → Claims (w.pc t) (w.target t) p → Claims (w.pc u) (w.target u) p → ⊥
  pub g_m_guarded : Guarded w.process.g_m (λ t. holds_g_m (w.pc t))
  pub g_big_guarded : Guarded w.process.g_big_obj_m (λ t. holds_g_big_obj_m (w.pc t))

-- What is true of a page that a thread counts on.
pub data Claimed (own : Own) (s : Process) (p : ℕ) : Type 0 where
  making :
      own p ≡ unused → large_first ≤ p → (p + 1) * 4096 ≤ s.large_obj_next_page → Claimed own s p
  freeing : (a b : ℕ) → own p ≡ live a b → Claimed own s p
  freeing_big : (n : ℕ) → own p ≡ big p n → Claimed own s p

pub claimed :
    (own : Own) (s : Process) (pc : Pc) (x p : ℕ)
    → Knows own s x pc
    → Claims pc x p
    → Claimed own s p
claimed own s (big_unlock v n) x p h c =
    making (h.vacant p c) (omega (arith, h.above)) (omega (arith, h.below))
claimed own s (big_header v n) x p h c =
    making (h.vacant p c) (omega (arith, h.above)) (omega (arith, h.below))
claimed own s (free_start q) x p (inl z) c = absurd (c.0 z)
claimed own s (free_start q) x p (inr (some, inl (b, now, lo, hi))) c =
    freeing x b (ap own c.1 ∙ now)
claimed own s (free_start q) x p (inr (some, inr (n, now, start, inside))) c =
    freeing_big n (ap own c.1 ∙ now ∙ ap (λ f. big f n) (sym c.1))
claimed own s (free_lock a) x p (at, h) c = freeing a h.0 (ap own (c ∙ ap page (sym at)) ∙ h.1)
claimed own s (free_move a) x p (at, h) c = freeing a h.0 (ap own (c ∙ ap page (sym at)) ∙ h.1)
claimed own s (free_unmap a size) x p (n, at, start, len, some, now) c =
    let e : p ≡ page a = c ∙ ap page (sym at) in
    freeing_big n (ap own e ∙ now ∙ ap (λ f. big f n) (sym e))
claimed own s pc x p h c = absurd c

-- Nothing has changed in page `p`.
abbrev pub Untouched : Own → Process → Own → Process → ℕ → Type 0
Untouched own s own' s' p = (own' p ≡ own p) × SamePage p s.vm s'.vm

Freeable-kept :
    (own own' : Own) {x q : ℕ} → own' (page x) ≡ own (page x) → Freeable own x q → Freeable own' x q
Freeable-kept own own' same (inl (b, now, lo, hi)) = inl (b, same ∙ now, lo, hi)
Freeable-kept own own' same (inr (n, now, at, inside)) = inr (n, same ∙ now, at, inside)

module _ (own own' : Own) (s s' : Process)
    (grows : s.large_obj_next_page ≤ s'.large_obj_next_page) where
  pub Reserved-kept :
      {v n : ℕ}
      → ((p : ℕ) → Within (page v) n p → Untouched own s own' s' p)
      → Reserved own s v n
      → Reserved own' s' v n
  Reserved-kept kept r = record {
    placed = r.placed;
    some_pages = r.some_pages;
    above = r.above;
    room = r.room;
    below = omega (arith, r.below);
    vacant = λ p w. (kept p w).0 ∙ r.vacant p w;
    mapped = λ p w. (kept p w).1.mapped ∙ r.mapped p w;
    zero = λ b w. (kept (page b) w).1.bytes b refl ∙ r.zero b w;
  }

  -- What a thread knows outlives a step that leaves the pages alone that it counts on.
  pub Knows-kept :
      (pc : Pc) (x : ℕ)
      → ((p : ℕ) → Claims pc x p → Untouched own s own' s' p)
      → Knows own s x pc
      → Knows own' s' x pc
  Knows-kept (malloc_lock size) x kept h = h
  Knows-kept (malloc_pop size) x kept h = h
  Knows-kept (big_lock n) x kept h = h
  Knows-kept (big_map n) x kept h = h
  Knows-kept (big_unlock v n) x kept h = Reserved-kept kept h
  Knows-kept (big_header v n) x kept h = Reserved-kept kept h
  Knows-kept (free_start q) x kept (inl z) = inl z
  Knows-kept (free_start q) x kept (inr (some, h)) =
      inr (some, Freeable-kept own own' (kept (page x) (some, refl)).0 h)
  Knows-kept (free_lock a) x kept (at, now) = (at, (now.0, (kept (page a) (ap page at)).0 ∙ now.1))
  Knows-kept (free_move a) x kept (at, now) = (at, (now.0, (kept (page a) (ap page at)).0 ∙ now.1))
  Knows-kept (free_unmap a size) x kept (n, at, start, len, some, now) =
      (n, at, start, len, some, (kept (page a) (ap page at)).0 ∙ now)
  Knows-kept pc x kept h = tt

-- What a thread knows outlives a write to a page that somebody owns.
pub Knows-written :
    (own : Own) (s : Process) (vm : Vm) (pc : Pc) (x : ℕ)
    → ((p : ℕ) → own p ≡ unused → SamePage p s.vm vm)
    → Knows own s x pc
    → Knows own (record s { vm = vm }) x pc
Knows-written own s vm (big_unlock v n) x others h =
    Reserved-kept own own s (record s { vm = vm }) (omega arith)
      (λ p i. (refl, others p (h.vacant p i))) h
Knows-written own s vm (big_header v n) x others h =
    Reserved-kept own own s (record s { vm = vm }) (omega arith)
      (λ p i. (refl, others p (h.vacant p i))) h
Knows-written own s vm pc x others h = h

-- A step of thread `t` to the place `next` and the target `x` is safe where the layout holds again,
-- what the thread knows there is true, it counts on no page that another thread counts on, no page that
-- another thread counts on was touched, and the mutexes are in order.
pub IsSafe-of_step :
    (w : World) (safe : IsSafe w) (t : ℕ) (own' : Own) (s' : Process) (next : Pc) (target' : ℕ → ℕ)
    (free' : ℕ → List ℕ)
    → ((u : ℕ) → u ≢ t → target' u ≡ w.target u)
    → w.process.large_obj_next_page ≤ s'.large_obj_next_page
    → Layout own' free' s'
    → Knows own' s' (target' t) next
    → ((u p : ℕ)
        → u ≢ t
        → Claims (w.pc u) (w.target u) p
        → (Claims next (target' t) p → ⊥) × Untouched w.own w.process own' s' p)
    → Guarded s'.g_m (λ u. holds_g_m (update w.pc t next u))
    → Guarded s'.g_big_obj_m (λ u. holds_g_big_obj_m (update w.pc t next u))
    → IsSafe (record { own = own'; process = s'; pc = update w.pc t next; target = target' })
IsSafe-of_step w safe t own' s' next target' free' kept grows layout known others g_m g_big =
    record {
      free = free';
      layout = layout;
      knows = knows';
      apart = apart';
      g_m_guarded = g_m;
      g_big_guarded = g_big;
    }
  where
    Claims-self : (p : ℕ) → Claims (update w.pc t next t) (target' t) p → Claims next (target' t) p
    Claims-self p = subst (λ a. Claims a (target' t) p) (update_self w.pc t next)

    Claims-other :
        (u p : ℕ)
        → u ≢ t
        → Claims (update w.pc t next u) (target' u) p
        → Claims (w.pc u) (w.target u) p
    Claims-other u p ne = subst₂ (λ a b. Claims a b p) (update_other w.pc t next u ne) (kept u ne)

    knows' : (u : ℕ) → Knows own' s' (target' u) (update w.pc t next u)
    knows' u = elim (ℕ_discrete u t) [
      | yes e ↦
          subst₂ (Knows own' s') (sym (ap target' e))
            (sym (ap (update w.pc t next) e ∙ update_self w.pc t next)) known
      | no ne ↦ subst₂ (Knows own' s') (sym (kept u ne)) (sym (update_other w.pc t next u ne)) (
          Knows-kept w.own own' w.process s' grows (w.pc u) (w.target u)
            (λ p c. (others u p ne c).1) (safe.knows u))
    ]

    apart' :
        (u v p : ℕ)
        → u ≢ v
        → Claims (update w.pc t next u) (target' u) p
        → Claims (update w.pc t next v) (target' v) p
        → ⊥
    apart' u v p ne c d = elim (ℕ_discrete u t) [
      | yes e ↦
          let other : v ≢ t = λ q. ne (e ∙ sym q) in
          (others v p other (Claims-other v p other d)).0
            (Claims-self p (subst (λ i. Claims (update w.pc t next i) (target' i) p) e c))
      | no away ↦ elim (ℕ_discrete v t) [
        | yes e ↦
            (others u p away (Claims-other u p away c)).0
              (Claims-self p (subst (λ i. Claims (update w.pc t next i) (target' i) p) e d))
        | no away' ↦ safe.apart u v p ne (Claims-other u p away c) (Claims-other v p away' d)
      ]
    ]
