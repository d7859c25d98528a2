-- ===== src/Threads/Quiet.antt =====
-- The states between the calls of all threads.
use mathlib.Core.Path.{subst}
use nuaf.Prelude.{ℕ, ◌≡◌, sym, ap, Bool, false, List}
use nuaf.Ownership.{Inv}
use nuaf.Threads.{resting, holds_g_m, holds_g_big_obj_m}
use nuaf.Threads.Mutex.{Guarded}
use nuaf.Threads.World.{World, Claims}
use nuaf.Threads.Safe.{Knows, IsSafe}

-- No thread is in a call, and the allocator is in a state of its invariant.
pub record IsQuiet (w : World) : Type 0 where
  pub free : ℕ → List ℕ
  pub inv : Inv w.own free w.process
  pub rest : (t : ℕ) → w.pc t ≡ resting 0

nobody :
    {flag : Bool} {inside : ℕ → Bool}
    → flag ≡ false
    → ((t : ℕ) → inside t ≡ false)
    → Guarded flag inside
nobody down out = record {
  exclusive = λ t u p q. let o = out t in absurd (cc (o, p));
  held = λ t p. let o = out t in absurd (cc (o, p));
  holder = λ up. absurd (cc (up, down));
}

pub IsSafe-of_quiet : {w : World} → IsQuiet w → IsSafe w
IsSafe-of_quiet {w} quiet = record {
  free = quiet.free;
  layout = quiet.inv.layout;
  knows = λ t. subst (Knows w.own w.process (w.target t)) (sym (quiet.rest t)) tt;
  apart = λ t u p ne c d. subst (λ a. Claims a (w.target t) p) (quiet.rest t) c;
  g_m_guarded = nobody quiet.inv.g_m_free (λ t. ap holds_g_m (quiet.rest t));
  g_big_guarded = nobody quiet.inv.g_big_obj_m_free (λ t. ap holds_g_big_obj_m (quiet.rest t));
}
