-- ===== src/Clients/Loops.antt =====
-- The rule for counted loops: an invariant that each round keeps holds at the end.
use mathlib.Core.Path.{subst}
use nuaf.Prelude.{ℕ, zero, suc, ◌+◌, ◌<◌, ◌≡◌, arith}
use nuaf.Process.{Process, Cmd}
use nuaf.Process.Ensures.{Ensures, returns, bind}
use nuaf.Clients.{for_from}

pub for_from-Ensures :
    {S R : Type 0} (P : ℕ → S → Process → Type 0) (stop : ℕ) (body : ℕ → S → Cmd S)
    → ((i : ℕ) (x : S) (s : Process) → i < stop → P i x s → Ensures R (P (i + 1)) (body i x s))
    → (n i : ℕ) (x : S) (s : Process) → i + n ≡ stop
    → P i x s
    → Ensures R (P stop) (for_from n i body x s)
unfolding for_from
for_from-Ensures P stop body keep zero i x s e p = returns (subst (λ j. P j x s) (omega arith) p)
for_from-Ensures P stop body keep (suc n) i x s e p =
    bind (keep i x s (omega arith) p)
      λ y s' q. for_from-Ensures P stop body keep n (i + 1) y s' (omega arith) q
