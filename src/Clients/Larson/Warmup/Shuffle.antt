-- ===== src/Clients/Larson/Warmup/Shuffle.antt =====
-- The shuffle in `warmup` of larson.cpp permutes the array of blocks.
use native.Mathlib.Nat.{mod-lt, pow-suc}
use native.Mathlib.Decide.{ℕ_discrete}
use nuaf.Prelude.{
  ℕ, zero, suc, ◌+◌, ◌-◌, ◌*◌, ◌/◌, ◌%◌, ◌^◌, ◌≤◌, ◌<◌, ◌≡◌, refl, sym, ◌∙◌, ap, ◌⊎◌, true, false,
  ◌==◌, if◌then◌else◌, arith,
}
use nuaf.Memory.{Vm, page, poke, read, write}
use nuaf.Memory.Bytes.{mapped-write, byte-write_apart, read-write_apart, read-write_self}
use nuaf.Process.{Process, ok}
use nuaf.Process.Access.{load_ok, store_ok}
use nuaf.Process.Ensures.{Ensures, returns, weaken}
use nuaf.Clients.Larson.Lran2.{Lran2, lran2}
use nuaf.Clients.Larson.Warmup.{shuffle_one, shuffle}

-- Entry `i` of the array of pointers at `x`.
abbrev pub word : ℕ → Process → ℕ → ℕ
word x s i = read 8 (x + 8 * i) s.vm

-- `n` pointers at `x`, aligned, in mapped memory of bytes.
pub record IsArray (x n : ℕ) (s : Process) : Type 0 where
  pub aligned : x % 8 ≡ 0
  pub mapped : (i : ℕ) → i < n → s.vm.mapped (page (x + 8 * i)) ≡ true
  pub bytes : (b : ℕ) → s.vm.byte b < 256

byte-lt :
    (w a v : ℕ) (vm : Vm) → ((b : ℕ) → vm.byte b < 256) → (b : ℕ) → (write w a v vm).byte b < 256
unfolding write
byte-lt zero a v vm h b = h b
byte-lt (suc w) a v vm h b =
    byte-lt w (a + 1) (v / 256) (poke vm a (v % 256)) (λ c. ground (arith, h c)) b

read-lt : (w a : ℕ) (vm : Vm) → ((b : ℕ) → vm.byte b < 256) → read w a vm < 256 ^ w
unfolding read
read-lt zero a vm h = omega arith
read-lt (suc w) a vm h = omega (arith, h a, read-lt w (a + 1) vm h, pow-suc 256 w)

-- Places `v` and `m` change.
abbrev pub swap : ℕ → ℕ → ℕ → ℕ
swap v m i = if i == m then v else if i == v then m else i

swap-injective : (v m i j : ℕ) → swap v m i ≡ swap v m j → i ≡ j
swap-injective v m i j e = ground arith

-- The array of `s'` is that of `s` with its first `n` entries permuted by `order`.
pub record IsPermuted (x n : ℕ) (s s' : Process) : Type 0 where
  pub order : ℕ → ℕ
  pub injective : (i j : ℕ) → order i ≡ order j → i ≡ j
  pub fixed : (i : ℕ) → n ≤ i → order i ≡ i
  pub words : (i : ℕ) → word x s' i ≡ word x s (order i)
  pub outside : (b : ℕ) → (b < x) ⊎ (x + 8 * n ≤ b) → s'.vm.byte b ≡ s.vm.byte b
  pub pages : (p : ℕ) → s'.vm.mapped p ≡ s.vm.mapped p

swapped : (x v m : ℕ) (s : Process) → Process
swapped x v m s = record s {
  vm = write 8 (x + 8 * m) (word x s v) (write 8 (x + 8 * v) (word x s m) s.vm);
}

words-swapped :
    (x v m : ℕ) (s : Process)
    → ((b : ℕ) → s.vm.byte b < 256)
    → (i : ℕ) → word x (swapped x v m s) i ≡ word x s (swap v m i)
unfolding swapped
words-swapped x v m s h i = elim (ℕ_discrete i m) [
  | yes e ↦
      let to : swap v m i ≡ v = ground arith in
      ap (λ j. word x (swapped x v m s) j) e
      ∙ read-write_self 8 (x + 8 * m) (word x s v) (write 8 (x + 8 * v) (word x s m) s.vm)
          (read-lt 8 (x + 8 * v) s.vm h)
      ∙ sym (ap (word x s) to)
  | no ne ↦
      read-write_apart 8 (x + 8 * i) 8 (x + 8 * m) (word x s v)
        (write 8 (x + 8 * v) (word x s m) s.vm) (omega (arith, ne))
      ∙ elim (ℕ_discrete i v) [
        | yes e ↦
            let to : swap v m i ≡ m = ground arith in
            ap (λ j. read 8 (x + 8 * j) (write 8 (x + 8 * v) (word x s m) s.vm)) e
            ∙ read-write_self 8 (x + 8 * v) (word x s m) s.vm (read-lt 8 (x + 8 * m) s.vm h)
            ∙ sym (ap (word x s) to)
        | no ne' ↦
            let to : swap v m i ≡ i = ground arith in
            read-write_apart 8 (x + 8 * i) 8 (x + 8 * v) (word x s m) s.vm (omega (arith, ne'))
            ∙ sym (ap (word x s) to)
      ]
]

swapped-IsPermuted :
    (x v m : ℕ) (s : Process)
    → ((b : ℕ) → s.vm.byte b < 256)
    → v ≤ m
    → IsPermuted x (suc m) s (swapped x v m s)
unfolding swapped
swapped-IsPermuted x v m s h le = record {
  order = swap v m;
  injective = swap-injective v m;
  fixed = λ i beyond. ground arith;
  words = words-swapped x v m s h;
  outside = λ b apart.
      byte-write_apart 8 (x + 8 * m) (word x s v) (write 8 (x + 8 * v) (word x s m) s.vm) b
        (omega arith)
      ∙ byte-write_apart 8 (x + 8 * v) (word x s m) s.vm b (omega arith);
  pages = λ p.
      mapped-write 8 (x + 8 * m) (word x s v) (write 8 (x + 8 * v) (word x s m) s.vm) p
      ∙ mapped-write 8 (x + 8 * v) (word x s m) s.vm p;
}

-- A permutation of the first entries after one of more.
IsPermuted-trans :
    (x n m : ℕ) (s t u : Process)
    → n ≤ m
    → IsPermuted x m s t
    → IsPermuted x n t u
    → IsPermuted x m s u
IsPermuted-trans x n m s t u le p q = record {
  order = λ i. p.order (q.order i);
  injective = λ i j e. q.injective i j (p.injective (q.order i) (q.order j) e);
  fixed = λ i beyond. ap p.order (q.fixed i (omega arith)) ∙ p.fixed i beyond;
  words = λ i. q.words i ∙ p.words (q.order i);
  outside = λ b apart. q.outside b (omega arith) ∙ p.outside b apart;
  pages = λ r. q.pages r ∙ p.pages r;
}

aligned_fits : (x i : ℕ) → x % 8 ≡ 0 → (x + 8 * i) % 4096 + 8 ≤ 4096
aligned_fits x i e = omega arith

swapped-IsArray : (x v n : ℕ) (s : Process) → IsArray x (suc n) s → IsArray x n (swapped x v n s)
unfolding swapped
swapped-IsArray x v n s a = record {
  aligned = a.aligned;
  mapped = λ i lt.
      mapped-write 8 (x + 8 * n) (word x s v) (write 8 (x + 8 * v) (word x s n) s.vm)
        (page (x + 8 * i))
      ∙ mapped-write 8 (x + 8 * v) (word x s n) s.vm (page (x + 8 * i))
      ∙ a.mapped i (omega arith);
  bytes =
      byte-lt 8 (x + 8 * n) (word x s v) (write 8 (x + 8 * v) (word x s n) s.vm)
        (byte-lt 8 (x + 8 * v) (word x s n) s.vm a.bytes);
}

shuffle_one_run :
    (x m : ℕ) (d : Lran2) (s : Process)
    → IsArray x (suc m) s
    → shuffle_one x (suc m) d s ≡ ok (lran2 d).1 (swapped x ((lran2 d).0 % suc m) m s)
unfolding shuffle_one swapped
shuffle_one_run x m d s a =
    let v : ℕ = (lran2 d).0 % suc m in
    let le : v < suc m = mod-lt (lran2 d).0 (omega arith) in
    let nonzero : (suc m == 0) ≡ false = ground arith in
    let last : suc m - 1 ≡ m = omega arith in
    let t : Process = record s { vm = write 8 (x + 8 * v) (word x s m) s.vm } in
    let at_v : s.vm.mapped (page (x + 8 * v)) ≡ true = a.mapped v le in
    let at_m : s.vm.mapped (page (x + 8 * m)) ≡ true = a.mapped m (omega arith) in
    let fits = λ (i : ℕ). aligned_fits x i a.aligned in
    rw
      (
        nonzero,
        last,
        load_ok 8 (x + 8 * v) (page (x + 8 * v)) s refl (omega arith) (fits v) at_v,
        load_ok 8 (x + 8 * m) (page (x + 8 * m)) s refl (omega arith) (fits m) at_m,
        store_ok 8 (x + 8 * v) (page (x + 8 * v)) s refl (omega arith) (fits v) (word x s m) at_v,
        store_ok 8 (x + 8 * m) (page (x + 8 * m)) t refl (omega arith) (fits m) (word x s v)
            (mapped-write 8 (x + 8 * v) (word x s m) s.vm (page (x + 8 * m)) ∙ at_m),
      )
      refl

-- For every generator, shuffling an array of `n` pointers returns, and the array afterwards is the one
-- before with its entries permuted; no byte outside of it has changed.
pub shuffle-IsPermuted :
    (x n : ℕ) (d : Lran2) (s : Process)
    → IsArray x n s
    → Ensures ⊥ (λ d' s'. IsPermuted x n s s') (shuffle x n d s)
unfolding shuffle
shuffle-IsPermuted x zero d s a = returns (record {
  order = λ i. i;
  injective = λ i j e. e;
  fixed = λ i beyond. refl;
  words = λ i. refl;
  outside = λ b apart. refl;
  pages = λ p. refl;
})
shuffle-IsPermuted x (suc n) d s a =
    let v : ℕ = (lran2 d).0 % suc n in
    let le : v < suc n = mod-lt (lran2 d).0 (omega arith) in
    let first = swapped-IsPermuted x v n s a.bytes (omega arith) in
    rw (shuffle_one_run x n d s a) (
      weaken
        (λ d' s' rest. IsPermuted-trans x n (suc n) s (swapped x v n s) s' (omega arith) first rest)
        (shuffle-IsPermuted x n (lran2 d).1 (swapped x v n s) (swapped-IsArray x v n s a)))
