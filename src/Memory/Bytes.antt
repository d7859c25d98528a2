-- ===== src/Memory/Bytes.antt =====
-- A store changes its own bytes only, keeps the mappings, and is read back by a load of its width.
use native.Mathlib.Nat.{pow-suc}
use nuaf.Prelude.{
  ℕ, zero, suc, ◌+◌, ◌*◌, ◌/◌, ◌%◌, ◌^◌, ◌≤◌, ◌<◌, ◌≡◌, refl, ap, ◌∙◌, ◌⊎◌, inl, arith,
}
use nuaf.Memory.{Vm, poke, read, write}

pub mapped-write : (w a v : ℕ) (vm : Vm) (p : ℕ) → (write w a v vm).mapped p ≡ vm.mapped p
unfolding write
mapped-write zero a v vm p = refl
mapped-write (suc w) a v vm p = mapped-write w (a + 1) (v / 256) (poke vm a (v % 256)) p

pub file_length-write : (w a v : ℕ) (vm : Vm) → (write w a v vm).file_length ≡ vm.file_length
unfolding write
file_length-write zero a v vm = refl
file_length-write (suc w) a v vm = file_length-write w (a + 1) (v / 256) (poke vm a (v % 256))

pub byte-write_apart :
    (w a v : ℕ) (vm : Vm) (b : ℕ) → (b < a) ⊎ (a + w ≤ b) → (write w a v vm).byte b ≡ vm.byte b
unfolding write
byte-write_apart zero a v vm b h = refl
byte-write_apart (suc w) a v vm b h =
    byte-write_apart w (a + 1) (v / 256) (poke vm a (v % 256)) b (omega arith) ∙ ground arith

-- A load depends on the bytes that it covers only.
pub read_ext :
    (w a : ℕ) (vm wm : Vm)
    → ((b : ℕ) → a ≤ b → b < a + w → wm.byte b ≡ vm.byte b)
    → read w a wm ≡ read w a vm
unfolding read
read_ext zero a vm wm h = refl
read_ext (suc w) a vm wm h = omega (
  arith,
  h a (omega arith) (omega arith),
  read_ext w (a + 1) vm wm (λ b p q. h b (omega arith) (omega arith)),
)

pub read-write_apart :
    (w a u b v : ℕ) (vm : Vm) → (a + w ≤ b) ⊎ (b + u ≤ a) → read w a (write u b v vm) ≡ read w a vm
read-write_apart w a u b v vm h =
    read_ext w a vm (write u b v vm) λ c p q. byte-write_apart u b v vm c (omega arith)

pub read-write_self : (w a v : ℕ) (vm : Vm) → v < 256 ^ w → read w a (write w a v vm) ≡ v
unfolding read write
read-write_self zero a v vm h = omega arith
read-write_self (suc w) a v vm h = omega (
  arith,
  byte-write_apart w (a + 1) (v / 256) (poke vm a (v % 256)) a (inl (omega arith))
      ∙ (let e : (poke vm a (v % 256)).byte a ≡ v % 256 = ground arith in e),
  read-write_self w (a + 1) (v / 256) (poke vm a (v % 256)) (omega (arith, pow-suc 256 w)),
)

-- The same bytes at two places are the same number.
pub read_shift :
    (w a b : ℕ) (vm wm : Vm)
    → ((i : ℕ) → i < w → wm.byte (a + i) ≡ vm.byte (b + i))
    → read w a wm ≡ read w b vm
unfolding read
read_shift zero a b vm wm h = refl
read_shift (suc w) a b vm wm h =
    let first : wm.byte a ≡ vm.byte b =
      ap wm.byte (let e : a ≡ a + 0 = omega arith in e)
      ∙ h 0 (omega arith)
      ∙ ap vm.byte (let e : b + 0 ≡ b = omega arith in e) in
    omega (
      arith,
      first,
      read_shift w (a + 1) (b + 1) vm wm λ i p.
          ap wm.byte (let e : a + 1 + i ≡ a + suc i = omega arith in e)
          ∙ h (suc i) (omega arith)
          ∙ ap vm.byte (let e : b + suc i ≡ b + 1 + i = omega arith in e),
    )

-- A one-byte store.
pub byte-write_one : (x v : ℕ) (vm : Vm) → (write 1 x v vm).byte x ≡ v % 256
unfolding write
byte-write_one x v vm = ground arith

-- An eight-byte number is its two halves.
pub read-halves : (a : ℕ) (vm : Vm) → read 8 a vm ≡ read 4 a vm + 2 ^ 32 * read 4 (a + 4) vm
unfolding read
read-halves a vm = let e : a + 4 ≡ a + 1 + 1 + 1 + 1 = omega arith in rw e (omega arith)
