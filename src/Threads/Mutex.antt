-- ===== src/Threads/Mutex.antt =====
-- A mutex and the threads that hold it.
use native.Mathlib.Decide.{ℕ_discrete}
use nuaf.Prelude.{refl, ℕ, ◌≡◌, ◌≢◌, sym, ◌∙◌, ap, Bool, true, false, arith}
use nuaf.Threads.{update}

-- At most one thread is inside, and the flag tells whether one is.
pub record Guarded (flag : Bool) (inside : ℕ → Bool) : Type 0 where
  pub exclusive : (t u : ℕ) → inside t ≡ true → inside u ≡ true → t ≡ u
  pub held : (t : ℕ) → inside t ≡ true → flag ≡ true
  pub holder : flag ≡ true → (t : ℕ) × (inside t ≡ true)

pub update_self : {A : Type 0} (f : ℕ → A) (t : ℕ) (a : A) → update f t a t ≡ a
update_self f t a = ground arith

pub update_other : {A : Type 0} (f : ℕ → A) (t : ℕ) (a : A) (u : ℕ) → u ≢ t → update f t a u ≡ f u
update_other f t a u ne = ground arith

module _ {A : Type 0} (holds : A → Bool) {flag : Bool} (f : ℕ → A)
    (g : Guarded flag (λ u. holds (f u))) (t : ℕ) (a : A) where
  -- A step that neither takes nor gives the mutex.
  pub guarded_keep : holds a ≡ holds (f t) → Guarded flag (λ u. holds (update f t a u))
  guarded_keep same = record {
    exclusive = λ u v p q. g.exclusive u v (sym (here u) ∙ p) (sym (here v) ∙ q);
    held = λ u p. g.held u (sym (here u) ∙ p);
    holder = λ up. let (u, p) = g.holder up in (u, here u ∙ p);
  }
    where
      here : (u : ℕ) → holds (update f t a u) ≡ holds (f u)
      here u = elim (ℕ_discrete u t) [
        | yes e ↦ rw e (ap holds (update_self f t a) ∙ same)
        | no ne ↦ ap holds (update_other f t a u ne)
      ]

  pub guarded_take : flag ≡ false → holds a ≡ true → Guarded true (λ u. holds (update f t a u))
  guarded_take down in_a = record {
    exclusive = λ u v p q. only u p ∙ sym (only v q);
    held = λ u p. refl;
    holder = λ up. (t, ap holds (update_self f t a) ∙ in_a);
  }
    where
      only : (u : ℕ) → holds (update f t a u) ≡ true → u ≡ t
      only u p = elim (ℕ_discrete u t) [
        | yes e ↦ e
        | no ne ↦
            let up = g.held u (sym (ap holds (update_other f t a u ne)) ∙ p) in
            absurd (cc (up, down))
      ]

  pub guarded_give :
      holds (f t) ≡ true → holds a ≡ false → Guarded false (λ u. holds (update f t a u))
  guarded_give was out = record {
    exclusive = λ u v p q. absurd (none u p);
    held = λ u p. absurd (none u p);
    holder = λ up. absurd (cc up);
  }
    where
      none : (u : ℕ) → holds (update f t a u) ≡ true → ⊥
      none u p = elim (ℕ_discrete u t) [
        | yes e ↦
            let q =
              sym (ap holds (update_self f t a)) ∙ ap (λ v. holds (update f t a v)) (sym e) ∙ p in
            absurd (cc (q, out))
        | no ne ↦ absurd (ne (g.exclusive u t (sym (ap holds (update_other f t a u ne)) ∙ p) was))
      ]
