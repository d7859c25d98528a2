-- ===== src/Clients/Phong.antt =====
-- CMA_benchmarks/phong/phong.c: what each thread does, and the limits that the command line is put to.
pub mod Pick
use nuaf.Prelude.{
  ℕ, zero, suc, ◌+◌, ◌-◌, ◌*◌, ◌/◌, ◌%◌, ◌^◌, Bool, ltb, leb, ◌||◌, not, List, [], ◌∷◌, ◌==◌,
  if◌then◌else◌,
}
use nuaf.Prelude.Int.{ℤ, pos, negsuc}
use nuaf.Words.{to_unsigned, add_size, sub_size, mul_size}
use nuaf.Process.{exit, diverged, Cmd, pure, ◌>>=◌, ◌>>◌, load_word, store, store_word}
use nuaf.Libc.{memset}
use nuaf.Wrapper.{Heap, malloc, free, realloc}
use nuaf.Clients.{for_from, rem, quot}

-- `Nalloc`, `Nthread`, `Minsize`, `Maxsize`
pub record Config : Type 0 where
  pub nalloc : ℕ
  pub nthread : ℕ
  pub minsize : ℕ
  pub maxsize : ℕ

-- `Nalloc`, `Nthread`, `Minsize` and `Maxsize` while the options are read.
pub record Flags : Type 0 where
  pub nalloc : ℤ
  pub nthread : ℤ
  pub minsize : ℕ
  pub maxsize : ℕ

-- An argument: its first two bytes, and what atoi makes of the rest.
pub record Argument : Type 0 where
  pub dash : ℕ
  pub letter : ℕ
  pub number : ℤ

-- A round of the loop of `main` over the arguments.
unfoldable pub read_option : Argument → Flags → Flags
read_option a flags =
    if not (a.dash == b'-')
    then flags
    else if a.letter == b'a'
    then record flags { nalloc = a.number }
    else if a.letter == b't'
    then record flags { nthread = a.number }
    else if a.letter == b'z'
    then record flags { minsize = to_unsigned 64 a.number }
    else if a.letter == b'Z'
    then record flags { maxsize = to_unsigned 64 a.number }
    else flags

unfoldable pub read_options : List Argument → Flags → Flags
read_options [] flags = flags
read_options (a ∷ arguments) flags = read_options arguments (read_option a flags)

-- `n <= 0 || n > most` of an int, and then `most`.
abbrev pub limit : ℤ → ℕ → ℕ
limit (negsuc n) most = most
limit (pos n) most = if (n == 0) || ltb most n then most else n

-- `main`, from the values of the options.
unfoldable pub configure : (nalloc nthread : ℤ) (minsize maxsize : ℕ) → Config
configure nalloc nthread minsize maxsize =
    let least : ℕ = if minsize == 0 then 1 else minsize in
    record {
      nalloc = limit nalloc 1000000;
      nthread = limit nthread 256;
      minsize = least;
      maxsize = if ltb maxsize least then least else maxsize;
    }

-- FNV_PRIME and FNV_OFFSET
abbrev pub fnv_prime : ℕ
fnv_prime = 16777619

abbrev pub fnv_offset : ℕ
fnv_offset = 2166136261

-- `RANDOM()`, on an unsigned int.
unfoldable pub random : ℕ → ℕ
random rand = (rand * fnv_prime + fnv_offset) % 2 ^ 32

-- The endless loop that picks a size below `len`: the size, and `rand` after it.
unfoldable pub pick_from : ℕ → (len rand : ℕ) → Cmd (ℕ × ℕ)
pick_from zero len rand = λ _. diverged
pick_from (suc rounds) len rand = do
  let rand' = random rand
  let rand'' = random rand'
  sz ← rem rand' len
  let again = pick_from rounds sz rand''
  if leb (mul_size 100 sz / len) (rand'' % 100) then pure (sz, rand'') else again

-- Each round but the last lowers `len`, so `len` rounds are enough.
unfoldable pub pick_size : Config → ℕ → Cmd (ℕ × ℕ)
pick_size c rand = do
  let len = add_size (sub_size c.maxsize c.minsize) 1
  (sz, rand') ← pick_from len len rand
  pure (add_size sz c.minsize, rand')

abbrev pub error : {A : Type 0} → Cmd A
error = λ _. exit 1

-- The write number `c` into the object `list[k]` of `sz` bytes.
unfoldable pub touch_one : (list k sz ch c : ℕ) → Unit {0} → Cmd (Unit {0})
touch_one list k sz ch c u = do p ← load_word (list + 8 * k); store 1 (p + mul_size c sz / 10) ch

unfoldable pub touch : (list k sz ch : ℕ) → Cmd (Unit {0})
unfolding touch_one for_from
touch list k sz ch = for_from 10 0 (touch_one list k sz ch) tt

-- The size that `realloc` is tried with.
unfoldable pub next_size : Config → ℕ → ℕ
next_size c old = if ltb c.maxsize old then old / 4 else mul_size 2 old

module _ (h : Heap) (c : Config) (list size : ℕ) where
  -- Gives up the object `p`.
  unfoldable pub drop : ℕ → Cmd (Unit {0})
  drop p = do
    object ← load_word (list + 8 * p)
    free h object
    store_word (list + 8 * p) 0
    store_word (size + 8 * p) 0

  -- Tries another size for the object `p`.
  unfoldable pub resize_one : ℕ → Cmd (Unit {0})
  resize_one p = do
    old ← load_word (size + 8 * p)
    let sz = next_size c old
    object ← load_word (list + 8 * p)
    moved ← realloc h object sz
    store_word (list + 8 * p) moved
    if moved == 0 then error else (do store_word (size + 8 * p) sz; touch list p sz 114)

  -- The check of the object `p` for free and realloc.
  unfoldable pub visit : (p rand : ℕ) → Cmd ℕ
  visit p rand = do
    object ← load_word (list + 8 * p)
    let rand' = random rand
    let rand'' = random rand'
    if object == 0
        then pure rand
        else if rand' % 2 == 0
        then (do drop p; pure rand')
        else if rand'' % 4 == 0
        then (do resize_one p; pure rand'')
        else pure rand''

  -- The interval that is checked after the object `k`.
  unfoldable pub visit_some : (k rand : ℕ) → Cmd ℕ
  visit_some k rand = do
    let rand' = random rand
    let rand'' = random rand'
    p ← rem rand' k
    q ← rem rand'' k
    let low = if ltb q p then q else p
    let high = if ltb q p then p else q
    for_from (high + 1 - low) low visit rand''

  -- One round of the loop over `k`.
  unfoldable pub allocate_one : (k rand : ℕ) → Cmd ℕ
  allocate_one k rand = do
    (sz, rand') ← pick_size c rand
    object ← malloc h sz
    store_word (list + 8 * k) object
    if object == 0 then error else (do store_word (size + 8 * k) sz; touch list k sz 109)
    if ltb k 1000 then pure rand' else visit_some k rand'

unfoldable pub allocate : Heap → Config → Cmd (Unit {0})
allocate h c = do
  nalloc ← quot c.nalloc c.nthread
  list ← malloc h (mul_size nalloc 8)
  if list == 0 then error else pure tt
  size ← malloc h (mul_size nalloc 8)
  if size == 0 then error else pure tt
  memset list 0 (mul_size nalloc 8)
  memset size 0 (mul_size nalloc 8)
  for_from nalloc 0 (allocate_one h c list size) 0
  free h list
  free h size
