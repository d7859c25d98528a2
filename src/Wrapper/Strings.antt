-- ===== src/Wrapper/Strings.antt =====
-- Strings in the memory of the program.
use nuaf.Prelude.{ℕ, suc, ◌+◌, ◌<◌, ◌≡◌, ◌≢◌, refl, sym, ap, ◌∙◌, true, arith}
use nuaf.Memory.{page}
use nuaf.System.{SamePage}
use nuaf.Process.{Process, ok, load}
use nuaf.Process.Access.{load_ok}
use nuaf.Ownership.{live, Own}
use nuaf.Safety.Malloc.{Received}
use nuaf.Safety.Kept.{received_apart}
use nuaf.Wrapper.Copy.{read_one}

-- A string of `n` characters at `x`, with its end, in one mapped page.
pub record IsString (x n : ℕ) (s : Process) : Type 0 where
  pub characters : (i : ℕ) → i < n → s.vm.byte (x + i) ≢ 0
  pub end : s.vm.byte (x + n) ≡ 0
  pub in_page : (i : ℕ) → i < suc n → page (x + i) ≡ page x
  pub mapped : s.vm.mapped (page x) ≡ true

pub load_character :
    {x n : ℕ} {s : Process} (i : ℕ)
    → IsString x n s
    → i < suc n
    → load 1 (x + i) s ≡ ok (s.vm.byte (x + i)) s
load_character {x} {n} {s} i str lt =
    load_ok 1 (x + i) (page x) s (str.in_page i lt) (omega arith) (omega arith) str.mapped
    ∙ ap (λ c. ok c s) (read_one (x + i) s)

pub first_character : {x n : ℕ} {s : Process} → IsString x n s → load 1 x s ≡ ok (s.vm.byte x) s
first_character {x} {n} {s} str =
    load_ok 1 x (page x) s refl (omega arith) (omega arith) str.mapped
    ∙ ap (λ c. ok c s) (read_one x s)

-- The rest of a string, after a store on another page.
pub IsString-tail :
    {x n p : ℕ} {s s1 : Process}
    → IsString x (suc n) s
    → page x ≢ p
    → ((q : ℕ) → q ≢ p → SamePage q s.vm s1.vm)
    → IsString (x + 1) n s1
IsString-tail {x} {n} {s} {s1} str ne others =
    let here : page (x + 1) ≡ page x = str.in_page 1 (omega arith) in
    let there = λ (i : ℕ). (let e : x + 1 + i ≡ x + suc i = omega arith in e) in
    let same = others (page x) ne in
    record {
      characters = λ i lt z. str.characters (suc i) (omega arith) (
          sym (same.bytes (x + suc i) (str.in_page (suc i) (omega arith)))
          ∙ ap s1.vm.byte (sym (there i))
          ∙ z);
      end =
          ap s1.vm.byte (there n)
          ∙ same.bytes (x + suc n) (str.in_page (suc n) (omega arith))
          ∙ str.end;
      in_page = λ i lt. ap page (there i) ∙ str.in_page (suc i) (omega arith) ∙ sym here;
      mapped = ap s1.vm.mapped here ∙ same.mapped ∙ str.mapped;
    }

-- A string in an object of the program, after the program has received another object.
module _ {own : Own} {s : Process} (a b n : ℕ) (now : own (page a) ≡ live a b)
    (str : IsString a n s) {size a' : ℕ} {s1 : Process} (got : Received own s size a' s1) where
  pub fresh : page a ≢ page a'
  fresh = received_apart got now

  pub IsString-kept : IsString a n s1
  IsString-kept =
      let same = got.others (page a) fresh in
      record {
        characters = λ i lt z.
            str.characters i lt (sym (same.bytes (a + i) (str.in_page i (omega arith))) ∙ z);
        end = same.bytes (a + n) (str.in_page n (omega arith)) ∙ str.end;
        in_page = str.in_page;
        mapped = same.mapped ∙ str.mapped;
      }
