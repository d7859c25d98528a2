-- ===== src/Clients/Ints.antt =====
-- Products of ints in the benchmark programs.
use nuaf.Prelude.{ℕ, ◌^◌, ◌<◌, ◌≡◌, refl, true, Bool-cases, inl, inr, ltb, arith}
use nuaf.Process.{Process, ok}
use nuaf.Process.Returns.{OkWith, OkWith-ok}
use nuaf.Clients.{in_int}

pub in_int-OkWith : (n : ℕ) (s : Process) → OkWith (λ m. m ≡ n) (in_int n s)
unfolding in_int
in_int-OkWith n s = elim (Bool-cases (ltb n (2 ^ 31))) [
  | inl fits ↦ rw fits (OkWith-ok refl)
  | inr over ↦ rw over (record { holds = λ e. absurd (cc e) })
]

pub in_int-ok : (n : ℕ) (s : Process) → n < 2 ^ 31 → in_int n s ≡ ok n s
unfolding in_int
in_int-ok n s h = let fits : ltb n (2 ^ 31) ≡ true = ground arith in rw fits refl
