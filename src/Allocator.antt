-- ===== src/Allocator.antt =====
-- allocator.c: start of the allocator, allocation, release and the size of objects. Objects up to
-- 2048 bytes come from freelist.c, one to a virtual page; larger ones have a mapping of their own.
pub mod Attempts
pub mod Interior
pub mod Remap
use nuaf.Prelude.{
  ℕ, zero, suc, ◌+◌, ◌-◌, ◌*◌, ◌/◌, ◌%◌, ◌^◌, Bool, true, false, ◌&&◌, Option, none, some, ltb, leb,
  ◌==◌, if◌then◌else◌,
}
use nuaf.Memory.{page_size}
use nuaf.Words.{add_size, sub_size, mul_size, round_down, round_up, page_offset, page_start}
use nuaf.System.{System}
use nuaf.Process.{
  exit, undefined, diverged, Cmd, pure, ◌>>=◌, ◌>>◌, get, put, call, load_int, load_word,
  store_word, lock_g_m, unlock_g_m, lock_g_big_obj_m, unlock_g_big_obj_m,
}
use nuaf.Freelist.{
  byte_alignment, magic_number, largest_block_size, freelist_init, freelist_push, freelist_pop,
}

-- DATA_SIZE, LARGE_OBJ_VADDR_START, LARGE_OBJ_START_MAGIC, and MMAP_MIN_ADDR of freelist.h
abbrev pub data_size : ℕ
data_size = 0x10000000000

abbrev pub large_obj_vaddr_start : ℕ
large_obj_vaddr_start = 0xFFFF000000

abbrev pub large_obj_start_magic : ℕ
large_obj_start_magic = 0xC001Be9

abbrev pub mmap_min_addr : ℕ
mmap_min_addr = 0x100000000

-- MAP_FAILED, `(void*)-1`
abbrev pub map_failed : ℕ
map_failed = 2 ^ 64 - 1

-- The end of `xxmalloc_big`: the two words of the header, and the pointer behind them.
unfoldable pub write_header : ℕ → ℕ → Cmd ℕ
write_header shadow num_pages = do
  store_word shadow large_obj_start_magic
  store_word (add_size shadow 8) num_pages
  pure (add_size shadow 16)

module _ (k : System) where
  -- The rest of `init_mem`, behind its early return.
  unfoldable pub start : Cmd (Unit {0})
  start = do
    s ← get
    put (record s {
      data_fd = 0;
      par_ps = k.getpid s.vm;
      high_vaddr = mmap_min_addr;
      large_obj_next_page = large_obj_vaddr_start;
      num_mappings = 0;
    })
    handled ← call k.sigaction
    if handled
        then (do
          fd ← call k.mkstemp
          elim fd [
            | none ↦ λ _. exit 1
            | some d ↦ do
              s ← get
              put (record s { data_fd = d })
              call (k.ftruncate d data_size)
              freelist_init
          ])
        else λ _. exit 2

  -- Only the process that ran it before returns early, so a forked child starts afresh.
  unfoldable pub init_mem : Cmd (Unit {0})
  unfolding start
  init_mem = do s ← get; if s.par_ps == k.getpid s.vm then pure tt else start

  -- `if (!data_fd) init_mem();`
  unfoldable pub ensure_init : Cmd (Unit {0})
  ensure_init = do s ← get; if s.data_fd == 0 then init_mem else pure tt

  -- `xxmalloc_big` while it holds its mutex; the result is `shadow`.
  unfoldable pub map_pages : ℕ → Cmd ℕ
  map_pages num_pages = do
    s ← get
    shadow ← call (k.mmap_anonymous s.large_obj_next_page (mul_size num_pages page_size))
    elim shadow [
      | none ↦ λ _. exit 1
      | some v ↦
          if v == s.large_obj_next_page
          then (do
            s ← get
            put (record s {
              num_mappings = add_size s.num_mappings 1;
              large_obj_next_page = add_size s.large_obj_next_page (mul_size page_size num_pages);
            })
            pure v)
          else λ _. exit 1
    ]

  -- `xxmalloc_big` from its lock on, for that many pages.
  unfoldable pub map_big : ℕ → Cmd ℕ
  map_big num_pages = do
    lock_g_big_obj_m
    shadow ← map_pages num_pages
    unlock_g_big_obj_m
    write_header shadow num_pages

  unfoldable pub xxmalloc_big : ℕ → Cmd ℕ
  xxmalloc_big size = map_big (add_size size 16 / page_size + 1)

  unfoldable pub xxmalloc : ℕ → Cmd ℕ
  xxmalloc size = do
    ensure_init
    if ltb largest_block_size size
        then xxmalloc_big size
        else (do lock_g_m; obj_vaddr ← freelist_pop k size; unlock_g_m; pure obj_vaddr)

-- `(intptr_t)ptr >= LARGE_OBJ_VADDR_START`
abbrev pub is_large : ℕ → Bool
is_large ptr = ltb ptr (2 ^ 63) && leb large_obj_vaddr_start ptr

-- The loop that goes down pages until one begins with the magic word. The address space has 2^52
-- pages: after as many rounds the walk has come round to where it began, and goes on for ever.
unfoldable pub walk_down : ℕ → ℕ → Cmd ℕ
walk_down zero ptr = λ _. diverged
walk_down (suc fuel) ptr = do
  word ← load_word (page_start ptr)
  let below = walk_down fuel (sub_size ptr page_size)
  if word == large_obj_start_magic then pure ptr else below

abbrev pub all_pages : ℕ
all_pages = 2 ^ 52

-- `1 << n` as an int, converted to size_t. A shift that is negative or leaves the int is undefined.
unfoldable pub shifted_one : ℕ → Cmd ℕ
shifted_one n = if ltb n 31 then pure (2 ^ n) else λ _. undefined

unfoldable pub xxmalloc_usable_size : ℕ → Cmd ℕ
unfolding shifted_one
xxmalloc_usable_size ptr =
    if ptr == 0
    then pure 0
    else if is_large ptr
    then (do
      p ← walk_down all_pages ptr
      num_pages ← load_word (add_size (page_start p) 8)
      pure (sub_size (mul_size num_pages page_size) 16))
    else (do
      block_type ← load_int (page_start ptr)
      shifted_one ((block_type + magic_number) % 2 ^ 32))

-- The new value of `*ptr`.
unfoldable pub get_obj_start : ℕ → ℕ → Cmd ℕ
get_obj_start ptr obj_size =
    if is_large ptr
    then (do p ← walk_down all_pages ptr; pure (page_start p))
    else pure (add_size (round_down (sub_size ptr byte_alignment) obj_size) byte_alignment)

abbrev pub or_failed : Option ℕ → ℕ
or_failed none = map_failed
or_failed (some v) = v

module _ (k : System) where
  -- The loop of `xxfree`: try to move the page with old sizes of 1, 2, ... pages. The result is
  -- `new_vpage` and `i` after the loop; `n` rounds are left.
  unfoldable pub remap_loop : ℕ → ℕ → ℕ → Cmd (ℕ × ℕ)
  remap_loop zero i vpage = λ _. diverged
  remap_loop (suc n) i vpage = do
    s ← get
    moved ← call (k.mremap vpage (page_size * i) page_size s.high_vaddr)
    let again = remap_loop n (i + 1) vpage
    if (or_failed moved == map_failed) && ltb (i + 1) 100
        then again
        else pure (or_failed moved, i + 1)

  -- What `xxfree` does to a small object while it holds the mutex.
  unfoldable pub move_object : ℕ → Cmd (Unit {0})
  move_object ptr = do
    (new_vpage, i) ← remap_loop 99 1 (page_start ptr)
    if i == 100 then (λ _. exit 1) else (do
      s ← get
      put (record s { high_vaddr = add_size s.high_vaddr page_size })
      freelist_push (add_size new_vpage (page_offset ptr)))

  unfoldable pub free_small : ℕ → Cmd (Unit {0})
  free_small ptr = do lock_g_m; move_object ptr; unlock_g_m

  unfoldable pub free_big : ℕ → ℕ → Cmd (Unit {0})
  free_big ptr obj_size = do
    call (k.munmap (page_start ptr) (round_up obj_size page_size % 2 ^ 64))
    s ← get
    put (record s { num_mappings = sub_size s.num_mappings 1 })

  unfoldable pub xxfree : ℕ → Cmd (Unit {0})
  xxfree ptr = do
    ensure_init k
    if ptr == 0 then pure tt else (do
      obj_size ← xxmalloc_usable_size ptr
      start ← get_obj_start ptr obj_size
      if is_large start then free_big start obj_size else free_small start)

-- What runs at a `segv` once init_mem has set the handler: it prints the address and ends the process.
unfoldable pub sigsegv_handler : {A : Type 0} → ℕ → Cmd A
sigsegv_handler address = λ _. exit 1

unfoldable pub xxmalloc_lock : Cmd (Unit {0})
xxmalloc_lock = do lock_g_m; lock_g_big_obj_m

unfoldable pub xxmalloc_unlock : Cmd (Unit {0})
xxmalloc_unlock = do unlock_g_m; unlock_g_big_obj_m
