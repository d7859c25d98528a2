-- ===== src/Safety/Neighbours.antt =====
-- What a retry of mremap inside `xxfree` does to the pages behind the object's page.
use nuaf.Prelude.{ℕ, suc, ◌+◌, ◌*◌, ◌≤◌, ◌<◌, ◌^◌, ◌-◌, ◌≡◌, refl, ◌∙◌, ap, inr, false, some, arith}
use mathlib.Core.Path.{subst}
use nuaf.Memory.{Vm}
use nuaf.System.{System, IsLawful, Within, Moved}
use nuaf.Process.{Process, ok}
use nuaf.Allocator.{remap_loop}
use nuaf.Allocator.Attempts.{Refused, remap_loop-Refused}
use nuaf.Allocator.Remap.{remap_loop-success}

-- Where mremap refuses `m` attempts, fewer than 99, to move page `p` to page `new`, below page 2^40,
-- and then succeeds, the loop ends with success and every one of the `m` pages behind page `p` is
-- unmapped along with it, whatever it held, as long as the range of these pages ends before `new`.
pub remap_loop-neighbours :
    {k : System} (p new m : ℕ) (s : Process) {wm um : Vm} {v : ℕ}
    → IsLawful k
    → s.high_vaddr ≡ new * 4096
    → new < 2 ^ 40
    → m < 99
    → p + suc m ≤ new
    → Refused k (p * 4096) s.high_vaddr m 1 s.vm wm
    → k.mremap (p * 4096) (4096 * suc m) 4096 s.high_vaddr wm ≡ (some v, um)
    → (remap_loop k 99 1 (p * 4096) s ≡ ok (v, m + 2) (record s { vm = um }))
      × ((q : ℕ) → Within p (suc m) q → um.mapped q ≡ false)
remap_loop-neighbours {k} p new m s {wm} {um} {v} law at user few before refused moved =
    let at_page : k.mremap (p * 4096) (4096 * suc m) 4096 (new * 4096) wm ≡ (some v, um) =
      subst (λ t. k.mremap (p * 4096) (4096 * suc m) 4096 t wm ≡ (some v, um)) at moved in
    let effect : Moved p (suc m) new wm v um =
      law.mremap-ok p (suc m) new wm (omega arith) (inr (omega arith)) at_page in
    let rounds : 99 ≡ m + suc (98 - m) = omega arith in
    let placed = effect.placed in
    let index : 1 + m + 1 ≡ m + 2 = omega arith in
    let first : 1 + m ≡ suc m = omega arith in
    let granted : k.mremap (p * 4096) (4096 * (1 + m)) 4096 s.high_vaddr wm ≡ (some v, um) =
      rw first moved in
    (
      ap (λ r. remap_loop k r 1 (p * 4096) s) rounds
          ∙ remap_loop-Refused k (p * 4096) m (suc (98 - m)) 1 s wm refused (omega arith)
          ∙ remap_loop-success k (98 - m) (1 + m) (p * 4096) (record s { vm = wm }) granted
              (ground (arith, placed))
          ∙ rw index refl,
      effect.gone,
    )
