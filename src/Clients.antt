-- ===== src/Clients.antt =====
-- CMA_benchmarks/: programs that allocate and free, on the malloc family of wrapper.h. One run of a
-- worker is a `Cmd`; what other threads and the clock tell it are arguments.
pub mod Barrier
pub mod Ints
pub mod Larson
pub mod Loops
pub mod Phong
pub mod Scalability
pub mod Scratch
pub mod Thrash
pub mod ThreadTest
use nuaf.Prelude.{ℕ, zero, suc, ◌+◌, ◌*◌, ◌/◌, ◌%◌, none, some, Bool, ◌==◌, ◌^◌, ltb, if◌then◌else◌}
use nuaf.Words.{mul_size}
use nuaf.Process.{undefined, aborted, Cmd, pure, ◌>>=◌, ◌>>◌, load, store}
use nuaf.Wrapper.{Heap, operator_new}

-- for (i = first; i < first + rounds; i++) x = body (i, x)
unfoldable pub for_from : {S : Type 0} (rounds first : ℕ) → (ℕ → S → Cmd S) → S → Cmd S
for_from zero i body x = pure x
for_from (suc n) i body x = body i x >>= for_from n (i + 1) body

-- `a % b` and `a / b` of C.
abbrev pub rem : ℕ → ℕ → Cmd ℕ
rem a b = if b == 0 then (λ _. undefined) else pure (a % b)

abbrev pub quot : ℕ → ℕ → Cmd ℕ
quot a b = if b == 0 then (λ _. undefined) else pure (a / b)

-- An int that is not negative.
unfoldable pub in_int : ℕ → Cmd ℕ
in_int n = if ltb n (2 ^ 31) then pure n else λ _. undefined

abbrev pub assert : Bool → Cmd (Unit {0})
assert b = if b then pure tt else λ _. aborted

-- `new T[n]` for a T of `width` bytes, where nothing catches std::bad_alloc.
unfoldable pub new_array : Heap → (width n : ℕ) → Cmd ℕ
new_array h width n = do
  answer ← operator_new h (mul_size width n)
  elim answer [ none ↦ λ _. aborted | some p ↦ pure p ]
