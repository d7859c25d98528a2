-- ===== src/Process/Ensures.antt =====
-- Total correctness of a run: it returns with a postcondition, or exits for a stated reason.
use mathlib.Core.Path.{subst₂}
use nuaf.Prelude.{◌≡◌}
use nuaf.Process.{Process, Run, ok, exit, Cmd, and_then}

-- The run returns with `P`, or the process was ended by exit(1) and `R` is the reason. It does not
-- fault, block, loop or meet undefined behaviour.
pub data Ensures {A : Type 0} (R : Type 0) (P : A → Process → Type 0) : Run A → Type 0 where
  returns : {a : A} {s : Process} → P a s → Ensures R P (ok a s)
  exits : R → Ensures R P (exit 1)

module _ {A : Type 0} {R : Type 0} {P : A → Process → Type 0} where
  pub bind :
      {B : Type 0} {Q : B → Process → Type 0} {r : Run A} {k : A → Cmd B}
      → Ensures R P r
      → ((a : A) (s : Process) → P a s → Ensures R Q (k a s))
      → Ensures R Q (and_then r k)
  bind (returns p) next = next _ _ p
  bind (exits why) next = exits why

  pub weaken :
      {Q : A → Process → Type 0} {r : Run A}
      → ((a : A) (s : Process) → P a s → Q a s)
      → Ensures R P r
      → Ensures R Q r
  weaken imp (returns p) = returns (imp _ _ p)
  weaken imp (exits why) = exits why

  pub weaken_reason : {R' : Type 0} {r : Run A} → (R → R') → Ensures R P r → Ensures R' P r
  weaken_reason imp (returns p) = returns p
  weaken_reason imp (exits why) = exits (imp why)

  -- A run that is known to return returns with the postcondition.
  pub of_eq : {r : Run A} {a : A} {s : Process} → Ensures R P r → r ≡ ok a s → P a s
  of_eq (returns p) e = subst₂ P (cc) (cc) p
  of_eq (exits why) e = absurd (cc)
