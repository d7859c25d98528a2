-- ===== src/Process/Returns.antt =====
-- Partial correctness of a run: what holds of its answer where it returns.
use mathlib.Core.Path.{subst}
use nuaf.Process.Ensures.{Ensures, returns, exits}
use nuaf.Prelude.{◌≡◌, refl}
use nuaf.Process.{
  Process, Run, ok, exit, segv, undefined, blocked, diverged, aborted, Cmd, and_then,
}

pub record OkWith {A : Type 0} (P : A → Type 0) (r : Run A) : Type 0 where
  pub holds : {a : A} {s : Process} → r ≡ ok a s → P a

pub OkWith-ok : {A : Type 0} {P : A → Type 0} {a : A} {s : Process} → P a → OkWith P (ok a s)
OkWith-ok {P} p = record { holds = λ e. subst P (cc e) p }

pub Ensures-OkWith :
    {A : Type 0} {R : Type 0} {P : A → Process → Type 0} {Q : A → Type 0} {r : Run A}
    → Ensures R P r
    → OkWith Q r
    → Ensures R (λ a s. P a s × Q a) r
Ensures-OkWith (returns p) q = returns (p, q.holds refl)
Ensures-OkWith (exits why) q = exits why

pub OkWith-bind :
    {A B : Type 0} {P : A → Type 0} {Q : B → Type 0} (r : Run A) {k : A → Cmd B}
    → OkWith P r
    → ((a : A) (s : Process) → P a → OkWith Q (k a s))
    → OkWith Q (and_then r k)
OkWith-bind (ok a s) p next = next a s (p.holds refl)
OkWith-bind (exit n) p next = record { holds = λ e. absurd (cc e) }
OkWith-bind (segv a) p next = record { holds = λ e. absurd (cc e) }
OkWith-bind undefined p next = record { holds = λ e. absurd (cc e) }
OkWith-bind blocked p next = record { holds = λ e. absurd (cc e) }
OkWith-bind diverged p next = record { holds = λ e. absurd (cc e) }
OkWith-bind aborted p next = record { holds = λ e. absurd (cc e) }
