-- ===== src/Safety/Moved.antt =====
-- The address space after the mremap of `xxfree` and the write of `freelist_push`.
use nuaf.Prelude.{
  ℕ, ◌+◌, ◌*◌, ◌%◌, ◌^◌, ◌≤◌, ◌<◌, ◌≡◌, ◌≢◌, refl, ◌∙◌, inl, inr, false, arith, ◌==◌, if◌then◌else◌,
  Bool-cases,
}
use nuaf.Memory.{Vm, page, read, write}
use nuaf.Memory.Bytes.{mapped-write, read-write_apart, read-write_self, read_shift}
use nuaf.System.{SamePage, Moved, SamePage-trans}
use nuaf.Process.Access.{SamePage-write}
use nuaf.Ownership.{IsObject, large_first, small_first}

-- `um` but for the page `new`, which is as in `vm`: the state between the two halves.
abbrev pub between : ℕ → Vm → Vm → Vm
between new vm um = record {
  mapped = λ p. if p == new then vm.mapped p else um.mapped p;
  byte = λ c. if page c == new then vm.byte c else um.byte c;
  file_length = um.file_length;
  sys = um.sys;
}

module _ {old new v : ℕ} {vm um : Vm} (m : Moved old 1 new vm v um) where
  pub between-old : old ≢ new → (between new vm um).mapped old ≡ false
  between-old ne = let e : (old == new) ≡ false = ground arith in rw e (m.gone old (omega arith))

  pub between-others : (p : ℕ) → p ≢ old → SamePage p vm (between new vm um)
  between-others p ne = elim (Bool-cases (p == new)) [
    | inl at ↦ record { mapped = rw at refl; bytes = λ c e. rw (e, at) refl }
    | inr off ↦
        let same : SamePage p vm um = m.others p (omega arith) (ground arith) in
        record { mapped = rw off same.mapped; bytes = λ c e. rw (e, off) (same.bytes c e) }
  ]

  -- then eight bytes are written at `o` in the page `new`
  module _ (o top : ℕ) (at : page o ≡ new) (fits : o % 4096 + 8 ≤ 4096) where
    pub written-others : (p : ℕ) → p ≢ new → SamePage p (between new vm um) (write 8 o top um)
    written-others p ne =
        let same : SamePage p um (write 8 o top um) = SamePage-write 8 o new top um at fits p ne in
        let off : (p == new) ≡ false = ground arith in
        record { mapped = rw off same.mapped; bytes = λ c e. rw (e, off) (same.bytes c e) }

    pub written-same : (p : ℕ) → p ≢ old → p ≢ new → SamePage p vm (write 8 o top um)
    written-same p ne ne' =
        let first : SamePage p vm um = m.others p (omega arith) ne' in
        let then' : SamePage p um (write 8 o top um) =
          SamePage-write 8 o new top um at fits p ne' in
        SamePage-trans first then'

    pub written-link : top < 2 ^ 64 → read 8 o (write 8 o top um) ≡ top
    written-link h = read-write_self 8 o top um (omega arith)

  pub header-moved : read 4 (new * 4096) um ≡ read 4 (old * 4096) vm
  header-moved = read_shift 4 (new * 4096) (old * 4096) vm um λ i h. m.moved i (omega arith)

  -- the object of `old` has moved to the same place in `new`
  pub moved-IsObject :
      {a b : ℕ} (top : ℕ)
      → IsObject vm old a b
      → small_first ≤ new
      → new < large_first
      → let o = new * 4096 + a % 4096 in IsObject (write 8 o top um) new o b
  moved-IsObject {a} {b} top obj lo hi =
      let o : ℕ = new * 4096 + a % 4096 in
      let same : o % 4096 ≡ a % 4096 = omega arith in
      record {
        above = lo;
        below = hi;
        page_of = omega arith;
        block_type = obj.block_type;
        behind_header = rw same obj.behind_header;
        on_grid = rw same obj.on_grid;
        in_page = rw same obj.in_page;
        mapped = mapped-write 8 o top um new ∙ m.arrived;
        header =
            read-write_apart 4 (new * 4096) 8 o top um (inl (omega (arith, obj.behind_header)))
            ∙ header-moved
            ∙ obj.header;
      }
