-- ===== src/Wrapper.antt =====
-- wrapper.h: the malloc family on top of an allocator that offers xxmalloc, xxfree and
-- xxmalloc_usable_size, as gnuwrapper.cpp exports it on Linux.
pub mod Aligned
pub mod Alignment
pub mod Calloc
pub mod Copy
pub mod Clear
pub mod PosixAligned
pub mod Realloc
pub mod Resize
pub mod Strdup
pub mod Strings
pub mod Strndup
pub mod Zeroed
use Prim.Native.Nat.{bit_and}
use nuaf.Prelude.{
  ℕ, ◌+◌, ◌-◌, ◌*◌, ◌/◌, ◌%◌, ◌^◌, Bool, ◌&&◌, ◌||◌, not, Option, none, some, ltb, leb, ◌==◌,
  if◌then◌else◌,
}
use nuaf.Words.{add_size, sub_size, mul_size}
use nuaf.System.{System}
use nuaf.Process.{undefined, Cmd, pure, ◌>>=◌, ◌>>◌}
use nuaf.Libc.{memset, memcpy, strnlen, strlen, strncpy, strcpy}
use nuaf.Allocator

-- The functions that the wrapper wants, lines 41 to 45, and getcwd of the C library behind it.
pub record Heap : Type 0 where
  pub xxmalloc : ℕ → Cmd ℕ
  pub xxfree : ℕ → Cmd (Unit {0})
  pub xxmalloc_usable_size : ℕ → Cmd ℕ
  pub real_getcwd : ℕ → ℕ → Cmd ℕ

-- The allocator of this repository.
abbrev pub nuaf_heap : System → (ℕ → ℕ → Cmd ℕ) → Heap
nuaf_heap k getcwd = record {
  xxmalloc = Allocator.xxmalloc k;
  xxfree = Allocator.xxfree k;
  xxmalloc_usable_size = Allocator.xxmalloc_usable_size;
  real_getcwd = getcwd;
}

-- `EINVAL`, `ENOMEM` and `PATH_MAX` of Linux.
abbrev pub einval : ℕ
einval = 22

abbrev pub enomem : ℕ
enomem = 12

abbrev pub path_max : ℕ
path_max = 4096

-- `alignment == 0` or `alignment & (alignment - 1)`
abbrev pub is_bad_alignment : ℕ → Bool
is_bad_alignment alignment = (alignment == 0) || not (bit_and alignment (sub_size alignment 1) == 0)

-- `mallinfo` with every field 0, the ten fields in order.
pub record Mallinfo : Type 0 where
  pub arena : ℕ
  pub ordblks : ℕ
  pub smblks : ℕ
  pub hblks : ℕ
  pub hblkhd : ℕ
  pub usmblks : ℕ
  pub fsmblks : ℕ
  pub uordblks : ℕ
  pub fordblks : ℕ
  pub keepcost : ℕ

module _ (h : Heap) where
  unfoldable pub free : ℕ → Cmd (Unit {0})
  free ptr = h.xxfree ptr

  unfoldable pub malloc : ℕ → Cmd ℕ
  malloc sz = if sz / 2 ^ 63 == 0 then h.xxmalloc sz else pure 0

  unfoldable pub malloc_usable_size : ℕ → Cmd ℕ
  malloc_usable_size ptr = h.xxmalloc_usable_size ptr

  unfoldable pub cfree : ℕ → Cmd (Unit {0})
  cfree ptr = h.xxfree ptr

  -- The part of `calloc` behind the test for overflow.
  unfoldable pub zeroed_malloc : ℕ → Cmd ℕ
  zeroed_malloc n = do ptr ← malloc n; if ptr == 0 then pure 0 else (do memset ptr 0 n; pure ptr)

  unfoldable pub calloc : ℕ → ℕ → Cmd ℕ
  calloc nelem elsize =
      let n = mul_size nelem elsize in
      if not (elsize == 0) && not (nelem == n / elsize) then pure 0 else zeroed_malloc n

  -- The branch of `memalign` for an alignment other than sizeof(double).
  unfoldable pub memalign_up : ℕ → ℕ → Cmd ℕ
  memalign_up alignment size = do
    ptr ← malloc size
    if bit_and ptr (sub_size alignment 1) == ptr then pure ptr else (do
      free ptr
      p ← malloc (add_size size (mul_size 2 alignment))
      pure (bit_and (sub_size (add_size p alignment) 1) (2 ^ 64 - alignment)))

  unfoldable pub memalign : ℕ → ℕ → Cmd ℕ
  memalign alignment size =
      if is_bad_alignment alignment
      then pure 0
      else if alignment == 8
      then malloc size
      else memalign_up alignment size

  -- The status, and what is stored through `memptr`.
  unfoldable pub posix_memalign : ℕ → ℕ → Cmd (ℕ × Option ℕ)
  posix_memalign alignment size = if is_bad_alignment alignment then pure (einval, none) else (do
    ptr ← memalign alignment size
    pure (if ptr == 0 then (enomem, none) else (0, some ptr)))

  -- `size % 0` is undefined.
  unfoldable pub aligned_alloc : ℕ → ℕ → Cmd ℕ
  aligned_alloc alignment size =
      if alignment == 0
      then (λ _. undefined)
      else memalign alignment (sub_size (add_size size alignment) (size % alignment))

  unfoldable pub malloc_good_size : ℕ → Cmd ℕ
  malloc_good_size sz = do
    ptr ← malloc sz
    obj_size ← malloc_usable_size ptr
    free ptr
    pure obj_size

  -- The end of `realloc`, at an old block of another size than the new one.
  unfoldable pub move_block : ℕ → ℕ → ℕ → ℕ → Cmd ℕ
  move_block ptr obj_size buf sz = do
    memcpy buf ptr (if ltb obj_size sz then obj_size else sz)
    free ptr
    pure buf

  -- `realloc` behind its two early returns.
  unfoldable pub resize : ℕ → ℕ → Cmd ℕ
  resize ptr sz = do
    obj_size ← malloc_usable_size ptr
    buf ← malloc sz
    if buf == 0 then (do free ptr; pure buf) else (do
      buf_size ← malloc_usable_size buf
      if obj_size == buf_size then (do free buf; pure ptr) else move_block ptr obj_size buf sz)

  unfoldable pub realloc : ℕ → ℕ → Cmd ℕ
  realloc ptr sz =
      if ptr == 0 then malloc sz else if sz == 0 then (do free ptr; pure 0) else resize ptr sz

  unfoldable pub strndup : ℕ → ℕ → Cmd ℕ
  strndup s sz = if s == 0 then pure 0 else (do
    capped_length ← strnlen s sz
    new_string ← malloc (add_size capped_length 1)
    if new_string == 0 then pure 0 else (do
      strncpy new_string s capped_length
      memset (new_string + capped_length) 0 1
      pure new_string))

  unfoldable pub strdup : ℕ → Cmd ℕ
  strdup s = if s == 0 then pure 0 else (do
    n ← strlen s
    new_string ← malloc (add_size n 1)
    if new_string == 0 then pure 0 else (do strcpy new_string s; pure new_string))

  unfoldable pub getcwd : ℕ → ℕ → Cmd ℕ
  getcwd buf size =
      if buf == 0
      then (do
        let capacity = if size == 0 then path_max else size
        own ← malloc capacity
        h.real_getcwd own capacity)
      else h.real_getcwd buf size

  unfoldable pub mallopt : ℕ → ℕ → Cmd ℕ
  mallopt param value = pure 1

  unfoldable pub malloc_trim : ℕ → Cmd ℕ
  malloc_trim pad = pure 0

  unfoldable pub malloc_stats : Cmd (Unit {0})
  malloc_stats = pure tt

  unfoldable pub malloc_get_state : Cmd ℕ
  malloc_get_state = pure 0

  unfoldable pub malloc_set_state : ℕ → Cmd ℕ
  malloc_set_state ptr = pure 0

  unfoldable pub mallinfo : Cmd Mallinfo
  mallinfo = pure (record {
    arena = 0;
    ordblks = 0;
    smblks = 0;
    hblks = 0;
    hblkhd = 0;
    usmblks = 0;
    fsmblks = 0;
    uordblks = 0;
    fordblks = 0;
    keepcost = 0;
  })

  -- `none` is the exception std::bad_alloc. operator new[] has the same body.
  unfoldable pub operator_new : ℕ → Cmd (Option ℕ)
  operator_new sz = do ptr ← malloc sz; pure (if ptr == 0 then none else some ptr)

  -- The two forms with std::nothrow_t.
  unfoldable pub operator_new_nothrow : ℕ → Cmd ℕ
  operator_new_nothrow sz = malloc sz

  -- operator delete[] has the same body.
  unfoldable pub operator_delete : ℕ → Cmd (Unit {0})
  operator_delete ptr = free ptr

  unfoldable pub valloc : ℕ → Cmd ℕ
  valloc sz = memalign 8192 sz

  unfoldable pub pvalloc : ℕ → Cmd ℕ
  pvalloc sz = valloc (bit_and (add_size sz 8191) (2 ^ 64 - 8192))

  unfoldable pub recalloc : ℕ → ℕ → ℕ → Cmd ℕ
  recalloc p num sz = do
    ptr ← realloc p (mul_size num sz)
    if (p == 0) && not (ptr == 0)
        then (do n ← malloc_usable_size ptr; memset ptr 0 n; pure ptr)
        else pure ptr
