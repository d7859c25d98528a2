-- ===== src/Safety/Kept.antt =====
-- What holds of an object that the program has received, and what a call leaves of its other objects.
use nuaf.Prelude.{List, ℕ, ◌+◌, ◌*◌, ◌%◌, ◌≤◌, ◌<◌, arith, ◌≡◌, ◌≢◌, ap, ◌∙◌, inl, inr}
use nuaf.Memory.{Vm, page}
use nuaf.System.{SamePage}
use nuaf.Process.{Process}
use nuaf.Ownership.{live, retired, idle, Own, assign, IsObject}
use nuaf.Freelist.{block_size, block_type_of}
use nuaf.Allocator.Interior.{interior-user}
use nuaf.Ownership.Frame.{block_size_bounds}
use nuaf.Safety.Assign.{assign_self, assign_ne, IsObject-of_live}
use nuaf.Safety.Malloc.{Received}
use nuaf.Safety.Free.{Freed, freed_own}

module _ {own : Own} {s : Process} {size a : ℕ} {s' : Process}
    (got : Received own s size a s') where
  pub received_owned :
      assign own (page a) (live a (block_type_of size)) (page a) ≡ live a (block_type_of size)
  received_owned = assign_self own (page a) (live a (block_type_of size))

  pub received_object : IsObject s'.vm (page a) a (block_type_of size)
  received_object =
      IsObject-of_live (assign own (page a) (live a (block_type_of size)) (page a))
        (got.inv.layout.holds (page a)) received_owned

  pub received_sized :
      (16 ≤ block_size (block_type_of size)) × (block_size (block_type_of size) ≤ 2048)
  received_sized = block_size_bounds (block_type_of size) received_object.block_type

  pub received_user : (16 ≤ a) × (a < 0xFFFF000000)
  received_user =
      interior-user a (block_type_of size) a s' received_object (omega arith)
        (omega (arith, received_sized))

-- Every page that held an object of the program still does, and has not changed.
abbrev pub Keeps : Own → Vm → Own → Vm → Type 0
Keeps own vm own' vm' = (p c d : ℕ) → own p ≡ live c d → (own' p ≡ live c d) × SamePage p vm vm'

-- An object that the program receives lies in none of the pages of its objects.
pub received_apart :
    {own : Own} {s s' : Process} {size a p c d : ℕ}
    → Received own s size a s'
    → own p ≡ live c d
    → p ≢ page a
received_apart {own} got now e = elim got.before [
  | inl u ↦ let same = ap own e in absurd (cc (now, u, same))
  | inr i ↦ let same = ap own e in absurd (cc (now, i, same))
]

pub Received-Keeps :
    {own : Own} {s s' : Process} {size a : ℕ} (b : ℕ)
    → Received own s size a s'
    → Keeps own s.vm (assign own (page a) (live a b)) s'.vm
Received-Keeps {own} {a = a} b got p c d now =
    let ne = received_apart got now in
    (assign_ne own (page a) (live a b) p ne ∙ now, got.others p ne)

-- All objects but the one that is freed.
pub Freed-keeps :
    {own : Own} {free : ℕ → List ℕ} {s s' : Process} {a b p c d : ℕ} {u : Unit {0}}
    → Freed own free s a b u s'
    → p ≢ page a
    → own p ≡ live c d
    → (freed_own own s a b p ≡ live c d) × SamePage p s.vm s'.vm
Freed-keeps {own} {s = s} {a = a} {b} {p} done ne now =
    let next : p ≢ page s.high_vaddr = λ e.
      (let same = ap own e in let fresh = done.fresh_unused in absurd (cc (now, fresh, same))) in
    (
      assign_ne (assign own (page a) retired) (page s.high_vaddr)
            (idle (page s.high_vaddr * 4096 + a % 4096) b) p next
          ∙ assign_ne own (page a) retired p ne
          ∙ now,
      done.others p ne next,
    )
