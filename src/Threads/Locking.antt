-- ===== src/Threads/Locking.antt =====
-- The steps that take or give a mutex, or only look.
use nuaf.Prelude.{ℕ, ◌≡◌, sym, ap, ◌∙◌, true, false, inl, inr, Bool-cases}
use nuaf.Process.{
  Process, pure, and_then, lock_g_m, unlock_g_m, lock_g_big_obj_m, unlock_g_big_obj_m,
}
use nuaf.Ownership.{retired}
use nuaf.Threads.{Pc, holds_g_m, holds_g_big_obj_m, update}
use nuaf.Threads.Mutex.{guarded_keep, guarded_take, guarded_give}
use nuaf.Threads.World.{World, Claims}
use nuaf.Threads.Safe.{Knows, IsSafe}
use nuaf.Threads.Outcome.{Outcome, goes, waits, still}

-- `Good`, where nobody's pages change hands.
abbrev pub Same : World → ℕ → Pc → Process → Type 0
Same w t next s' =
    IsSafe (record { own = w.own; process = s'; pc = update w.pc t next; target = w.target })
    × ((p : ℕ) → w.own p ≡ retired → w.own p ≡ retired)

module _ (w : World) (safe : IsSafe w) (t : ℕ) (pc next : Pc) (at : w.pc t ≡ pc)
    (known' : Knows w.own w.process (w.target t) next)
    (less : (p : ℕ) → Claims next (w.target t) p → Claims pc (w.target t) p) where
  -- No mutex changes.
  pub look :
      {R W : Type 0}
      → holds_g_m next ≡ holds_g_m pc
      → holds_g_big_obj_m next ≡ holds_g_big_obj_m pc
      → Outcome R W (Same w t) (pure next w.process)
  look m big = goes (
    still w safe t at next w.process.g_m w.process.g_big_obj_m known' less
        (guarded_keep holds_g_m w.pc safe.g_m_guarded t next (m ∙ ap holds_g_m (sym at)))
        (guarded_keep holds_g_big_obj_m w.pc safe.g_big_guarded t next
          (big ∙ ap holds_g_big_obj_m (sym at))),
    λ p gone. gone,
  )

  pub take_g_m :
      {R W : Type 0}
      → holds_g_m next ≡ true
      → holds_g_big_obj_m next ≡ holds_g_big_obj_m pc
      → (w.process.g_m ≡ true → W)
      → Outcome R W (Same w t) (and_then (lock_g_m w.process) (λ _. pure next))
  unfolding lock_g_m
  take_g_m m big why = elim (Bool-cases w.process.g_m) [
    | inl up ↦ rw up (waits (why up))
    | inr down ↦ rw down (
        goes (
          still w safe t at next true w.process.g_big_obj_m known' less
              (guarded_take holds_g_m w.pc safe.g_m_guarded t next down m)
              (guarded_keep holds_g_big_obj_m w.pc safe.g_big_guarded t next
                (big ∙ ap holds_g_big_obj_m (sym at))),
          λ p gone. gone,
        ))
  ]

  pub give_g_m :
      {R W : Type 0}
      → holds_g_m pc ≡ true
      → holds_g_m next ≡ false
      → holds_g_big_obj_m next ≡ holds_g_big_obj_m pc
      → Outcome R W (Same w t) (and_then (unlock_g_m w.process) (λ _. pure next))
  unfolding unlock_g_m
  give_g_m m m' big = goes (
    still w safe t at next false w.process.g_big_obj_m known' less
        (guarded_give holds_g_m w.pc safe.g_m_guarded t next (ap holds_g_m at ∙ m) m')
        (guarded_keep holds_g_big_obj_m w.pc safe.g_big_guarded t next
          (big ∙ ap holds_g_big_obj_m (sym at))),
    λ p gone. gone,
  )

  pub take_g_big_obj_m :
      {R W : Type 0}
      → holds_g_big_obj_m next ≡ true
      → holds_g_m next ≡ holds_g_m pc
      → (w.process.g_big_obj_m ≡ true → W)
      → Outcome R W (Same w t) (and_then (lock_g_big_obj_m w.process) (λ _. pure next))
  unfolding lock_g_big_obj_m
  take_g_big_obj_m big m why = elim (Bool-cases w.process.g_big_obj_m) [
    | inl up ↦ rw up (waits (why up))
    | inr down ↦ rw down (
        goes (
          still w safe t at next w.process.g_m true known' less
              (guarded_keep holds_g_m w.pc safe.g_m_guarded t next (m ∙ ap holds_g_m (sym at)))
              (guarded_take holds_g_big_obj_m w.pc safe.g_big_guarded t next down big),
          λ p gone. gone,
        ))
  ]

  pub give_g_big_obj_m :
      {R W : Type 0}
      → holds_g_big_obj_m pc ≡ true
      → holds_g_big_obj_m next ≡ false
      → holds_g_m next ≡ holds_g_m pc
      → Outcome R W (Same w t) (and_then (unlock_g_big_obj_m w.process) (λ _. pure next))
  unfolding unlock_g_big_obj_m
  give_g_big_obj_m big big' m = goes (
    still w safe t at next w.process.g_m false known' less
        (guarded_keep holds_g_m w.pc safe.g_m_guarded t next (m ∙ ap holds_g_m (sym at)))
        (guarded_give holds_g_big_obj_m w.pc safe.g_big_guarded t next
          (ap holds_g_big_obj_m at ∙ big) big'),
    λ p gone. gone,
  )
