-- ===== src/Freelist.antt =====
-- freelist.c and freelist.h: a stack of free objects for each of the eight sizes 16, 32, ..., 2048.
-- The stack is threaded through the first eight bytes of the free objects. Where it is empty, the
-- next object is carved from a page of the data file, which is mapped at a fresh address.
pub mod Sizes
pub mod Carving
pub mod Mark
pub mod Push
use nuaf.Prelude.{
  ℕ, zero, suc, ◌+◌, ◌-◌, ◌*◌, ◌%◌, ◌^◌, Bool, ◌||◌, none, some, ltb, leb, ◌==◌, if◌then◌else◌,
}
use nuaf.Memory.{page_size}
use nuaf.Words.{add_size, round_down, round_up, page_start}
use nuaf.System.{System}
use nuaf.Process.{
  Freelist, exit, undefined, Cmd, pure, ◌>>=◌, ◌>>◌, get, put, call, load_int, store_int, load_word,
  store_word,
}

-- BYTE_ALIGNMENT, MAGIC_NUMBER, MIN_BLOCK_SIZE, LARGEST_BLOCK_SIZE and NUM_BLOCK_TYPES
abbrev pub byte_alignment : ℕ
byte_alignment = 16

abbrev pub magic_number : ℕ
magic_number = 4

abbrev pub min_block_size : ℕ
min_block_size = 2 ^ magic_number

abbrev pub largest_block_size : ℕ
largest_block_size = 2048

abbrev pub num_block_types : ℕ
num_block_types = 8

abbrev pub set_flst : (ℕ → Freelist) → ℕ → Freelist → ℕ → Freelist
set_flst g i f j = if j == i then f else g j

-- The loop of `freelist_init` from index `i` on, with `n` rounds left.
unfoldable pub init_from : ℕ → ℕ → (ℕ → Freelist) → ℕ → Freelist
init_from zero i g = g
init_from (suc n) i g = init_from n (i + 1) (
    set_flst g i
      (record { top_of_stack = 0; high_canonical_addr = i * page_size + byte_alignment }))

unfoldable pub freelist_init : Cmd (Unit {0})
unfolding init_from
freelist_init s = put (record s { g_flsts = init_from num_block_types 0 s.g_flsts }) s

-- `g_flsts[block_type]` lies in the array. A negative `int` is read as a large number.
abbrev pub in_table : ℕ → Bool
in_table block_type = ltb block_type num_block_types

unfoldable pub freelist_push : ℕ → Cmd (Unit {0})
freelist_push obj_vaddr = do
  block_type ← load_int (page_start obj_vaddr)
  if in_table block_type
      then (do
        s ← get
        store_word obj_vaddr (s.g_flsts block_type).top_of_stack
        s ← get
        put (record s {
          g_flsts =
              set_flst s.g_flsts block_type
                (record (s.g_flsts block_type) { top_of_stack = obj_vaddr });
        }))
      else λ _. undefined

-- The least exponent from `c` on whose power of two is not below `n`.
unfoldable pub ceil_log2_from : ℕ → ℕ → ℕ → ℕ
ceil_log2_from zero c n = c
ceil_log2_from (suc f) c n =
    let rest = ceil_log2_from f (c + 1) n in if leb n (2 ^ c) then c else rest

-- `ceil(log2(n))`, which the C code computes in floating point: that is exact at the sizes that
-- reach it, 16 to 2048.
unfoldable pub ceil_log2 : ℕ → ℕ
unfolding ceil_log2_from
ceil_log2 n = ceil_log2_from 64 0 n

unfoldable pub block_type_of : ℕ → ℕ
block_type_of obj_size =
    if ltb obj_size min_block_size then 0 else ceil_log2 obj_size - magic_number

-- `1 << ((int)MAGIC_NUMBER + block_type)`
abbrev pub block_size : ℕ → ℕ
block_size block_type = 2 ^ (magic_number + block_type)

-- Where the next object is carved after one at `canonical`: behind it, or at the start of the next
-- page of this block type, eight pages on.
unfoldable pub next_canonical : ℕ → ℕ → ℕ
next_canonical block_type canonical =
    let high = canonical + block_size block_type in
    let bof = high % page_size in
    if (bof == 0) || leb (page_size - 2 * block_size block_type) bof
    then round_up high page_size + page_size * (num_block_types - 1) + byte_alignment
    else high

-- `if (*(int*)beginning_vaddr != block_type) *(int*)beginning_vaddr = block_type;`
unfoldable pub mark : ℕ → ℕ → Cmd (Unit {0})
mark vaddr block_type = do
  word ← load_int vaddr
  if word == block_type then pure tt else store_int vaddr block_type

-- The part of `freelist_pop` behind a successful mmap.
unfoldable pub carve_at : ℕ → ℕ → Cmd ℕ
unfolding mark next_canonical
carve_at block_type vaddr = do
  s ← get
  put (record s { num_mappings = add_size s.num_mappings 1 })
  mark vaddr block_type
  s ← get
  let canonical = (s.g_flsts block_type).high_canonical_addr
  put (record s {
    high_vaddr = add_size s.high_vaddr page_size;
    g_flsts = set_flst s.g_flsts block_type (record (s.g_flsts block_type) {
      high_canonical_addr = next_canonical block_type canonical;
    });
  })
  pure (vaddr + canonical % page_size)

-- The branch of `freelist_pop` for an empty freelist.
unfoldable pub carve : System → ℕ → Cmd ℕ
unfolding carve_at
carve k block_type = do
  s ← get
  let offset = round_down (s.g_flsts block_type).high_canonical_addr page_size
  vaddr ← call (k.mmap_file s.high_vaddr page_size s.data_fd offset)
  elim vaddr [
    | none ↦ λ _. exit 1
    | some v ↦ if v == 0 then (λ _. exit 1) else carve_at block_type v
  ]

-- The branch that pops the freelist.
unfoldable pub reuse : ℕ → Cmd ℕ
reuse block_type = do
  s ← get
  let obj_vaddr = (s.g_flsts block_type).top_of_stack
  next ← load_word obj_vaddr
  s ← get
  put (record s {
    g_flsts = set_flst s.g_flsts block_type (record (s.g_flsts block_type) { top_of_stack = next });
  })
  pure obj_vaddr

unfoldable pub freelist_pop : System → ℕ → Cmd ℕ
unfolding block_type_of carve reuse
freelist_pop k obj_size = do
  let block_type = block_type_of obj_size
  s ← get
  if (s.g_flsts block_type).top_of_stack == 0 then carve k block_type else reuse block_type
