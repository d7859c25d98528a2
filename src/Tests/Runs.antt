-- ===== src/Tests/Runs.antt =====
-- Runs of the allocator on the granting kernel.
use nuaf.Prelude.{ℕ, ◌+◌, ◌≡◌, refl, List, [], ◌∷◌}
use nuaf.Process.{Run, ok, Cmd, pure, ◌>>=◌, ◌>>◌}
use nuaf.Allocator.{xxmalloc, xxmalloc_usable_size, xxfree}
use nuaf.Tests.Kernel.{granting}
use nuaf.Tests.States.{boot, runs}

result : {A : Type 0} → Run A → Run A
result (ok a s) = ok a boot
result r = r

-- A client: three allocations, a release through an interior pointer, and a reuse of the freelist.
client : Cmd (List ℕ)
client = do
  p ← xxmalloc granting 5
  q ← xxmalloc granting 16
  r ← xxmalloc granting 5000
  n ← xxmalloc_usable_size (r + 4100)
  xxfree granting (p + 7)
  t ← xxmalloc granting 10
  xxfree granting (r + 100)
  pure (p ∷ q ∷ r ∷ n ∷ t ∷ [])

result-client :
    result (client boot)
    ≡ ok (0x100000010 ∷ 0x100001020 ∷ 0xFFFF000010 ∷ 8176 ∷ 0x100002010 ∷ []) boot
unfolding client result runs
result-client = refl
