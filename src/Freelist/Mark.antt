-- ===== src/Freelist/Mark.antt =====
-- The header that `freelist_pop` leaves on a page that it has mapped.
use nuaf.Prelude.{ℕ, ◌*◌, ◌<◌, ◌≡◌, ◌≢◌, refl, ◌∙◌, inl, inr, true, arith, ◌==◌, Bool-cases}
use nuaf.Memory.{Vm, read, write}
use nuaf.Memory.Bytes.{mapped-write, file_length-write, read-write_self}
use nuaf.System.{SamePage}
use nuaf.Process.{Process, ok}
use nuaf.Process.Access.{load_ok, store_ok, SamePage-write}
use nuaf.Freelist.{mark}

-- The page begins with its block type, is still mapped, and no other page has changed.
pub record Marked (p b : ℕ) (vm wm : Vm) : Type 0 where
  pub mapped : wm.mapped p ≡ true
  pub header : read 4 (p * 4096) wm ≡ b
  pub others : (q : ℕ) → q ≢ p → SamePage q vm wm
  pub files : wm.file_length ≡ vm.file_length

-- `mark` writes the block type unless it is there.
pub mark_lem :
    (p b : ℕ) (s : Process)
    → b < 8
    → s.vm.mapped p ≡ true
    → (wm : Vm) × (mark (p * 4096) b s ≡ ok tt (record s { vm = wm })) × Marked p b s.vm wm
unfolding mark
mark_lem p b s small m =
    let got = load_ok 4 (p * 4096) p s (omega arith) (omega arith) (omega arith) m in
    elim (Bool-cases (read 4 (p * 4096) s.vm == b)) [
      | inl there ↦ (
        s.vm,
        rw (got, there) refl,
        record {
          mapped = m;
          header = ground arith;
          others = λ q ne. record { mapped = refl; bytes = λ a e. refl };
          files = refl;
        },
      )
      | inr missing ↦ (
        write 4 (p * 4096) b s.vm,
        rw (got, missing) (store_ok 4 (p * 4096) p s (omega arith) (omega arith) (omega arith) b m),
        record {
          mapped = mapped-write 4 (p * 4096) b s.vm p ∙ m;
          header = read-write_self 4 (p * 4096) b s.vm (omega arith);
          others = SamePage-write 4 (p * 4096) p b s.vm (omega arith) (omega arith);
          files = file_length-write 4 (p * 4096) b s.vm;
        },
      )
    ]
