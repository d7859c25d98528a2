-- ===== src/Safety/Remapped.antt =====
-- The page of an object that the program owns can be moved, on a kernel whose mremap moves pages.
use nuaf.Prelude.{ℕ, ◌*◌, ◌<◌, ◌≡◌, ◌≢◌, ap, List, some, arith}
use mathlib.Core.Path.{subst}
use nuaf.Memory.{Vm, page}
use nuaf.System.{System, Remaps}
use nuaf.Process.{Process}
use nuaf.Allocator.{large_obj_vaddr_start}
use nuaf.Ownership.{unused, live, Own, IsObject, Inv}
use nuaf.Safety.Assign.{IsObject-of_live}

pub remap_of_live :
    (k : System) {own : Own} {free : ℕ → List ℕ} {s : Process} (a b : ℕ)
    → Remaps k
    → Inv own free s
    → s.high_vaddr < large_obj_vaddr_start
    → own (page a) ≡ live a b
    → (v : ℕ) × (um : Vm) × (k.mremap (page a * 4096) 4096 4096 s.high_vaddr s.vm ≡ (some v, um))
remap_of_live k {own} {s = s} a b remaps inv room now =
    let l = inv.layout in
    let o : IsObject s.vm (page a) a b = IsObject-of_live (own (page a)) (l.holds (page a)) now in
    let new : ℕ = page s.high_vaddr in
    let fresh : own new ≡ unused = l.unused_small new (omega arith) (omega arith) in
    let ne : page a ≢ new = λ e. cc (now, fresh, ap own e) in
    let at : new * 4096 ≡ s.high_vaddr = omega (arith, l.high_aligned) in
    subst (λ h. (v : ℕ) × (um : Vm) × (k.mremap (page a * 4096) 4096 4096 h s.vm ≡ (some v, um))) at
      (remaps (page a) new s.vm o.mapped ne (omega (arith, o.below)) (omega arith))
