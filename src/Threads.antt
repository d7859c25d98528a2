-- ===== src/Threads.antt =====
-- allocator.c as several threads run it: each lock and each unlock of a mutex is a step, and so is the
-- code between two of them. The steps of different threads come in any order.
pub mod Mutex
pub mod World
pub mod Safe
pub mod Outcome
pub mod Locking
pub mod Small
pub mod Large
pub mod Turns
pub mod Moves
pub mod Quiet
pub mod Waiting
pub mod Trace
use native.Mathlib.Decide.{ℕ_discrete}
use mathlib.Core.Logic.{ite}
use nuaf.Prelude.{ℕ, zero, suc, ◌+◌, ◌/◌, Bool, true, false, ltb, ◌==◌, if◌then◌else◌}
use nuaf.Memory.{page_size}
use nuaf.Words.{add_size}
use nuaf.System.{System}
use nuaf.Process.{
  Process, Cmd, pure, ◌>>=◌, ◌>>◌, lock_g_m, unlock_g_m, lock_g_big_obj_m, unlock_g_big_obj_m,
}
use nuaf.Freelist.{largest_block_size, freelist_pop}
use nuaf.Allocator.{
  is_large, ensure_init, map_pages, write_header, xxmalloc_usable_size, get_obj_start, move_object,
  free_big,
}

-- Where a thread stands, with the local variables that are live there. `resting r`: it is in no call,
-- and the last one returned `r`, or 0 where it returns nothing.
pub data Pc : Type 0 where
  resting : (result : ℕ) → Pc
  malloc_start : (size : ℕ) → Pc
  malloc_lock : (size : ℕ) → Pc
  malloc_pop : (size : ℕ) → Pc
  malloc_unlock : (obj_vaddr : ℕ) → Pc
  big_lock : (num_pages : ℕ) → Pc
  big_map : (num_pages : ℕ) → Pc
  big_unlock : (shadow num_pages : ℕ) → Pc
  big_header : (shadow num_pages : ℕ) → Pc
  free_start : (ptr : ℕ) → Pc
  free_lock : (ptr : ℕ) → Pc
  free_move : (ptr : ℕ) → Pc
  free_unlock : Pc
  free_unmap : (ptr obj_size : ℕ) → Pc
  both_first : Pc
  both_second : Pc
  both_held : Pc
  both_rest : Pc

-- Whether the thread holds `g_m`, and whether it holds `g_big_obj_m`.
abbrev pub holds_g_m : Pc → Bool
holds_g_m (malloc_pop size) = true
holds_g_m (malloc_unlock obj_vaddr) = true
holds_g_m (free_move ptr) = true
holds_g_m free_unlock = true
holds_g_m both_second = true
holds_g_m both_held = true
holds_g_m _ = false

abbrev pub holds_g_big_obj_m : Pc → Bool
holds_g_big_obj_m (big_map num_pages) = true
holds_g_big_obj_m (big_unlock shadow num_pages) = true
holds_g_big_obj_m both_held = true
holds_g_big_obj_m both_rest = true
holds_g_big_obj_m _ = false

-- The start of `xxfree`, up to the branch on the kind of object.
unfoldable pub find_object : ℕ → Cmd Pc
find_object ptr = if ptr == 0 then pure (resting 0) else (do
  obj_size ← xxmalloc_usable_size ptr
  start ← get_obj_start ptr obj_size
  pure (if is_large start then free_unmap start obj_size else free_lock start))

module _ (k : System) where
  -- The next step of a thread in a call. A step that is `blocked` waits.
  unfoldable pub advance : Pc → Cmd Pc
  advance (resting result) = pure (resting result)
  advance (malloc_start size) = do
    ensure_init k
    pure (
        if ltb largest_block_size size
        then big_lock (add_size size 16 / page_size + 1)
        else malloc_lock size)
  advance (malloc_lock size) = do lock_g_m; pure (malloc_pop size)
  advance (malloc_pop size) = do obj_vaddr ← freelist_pop k size; pure (malloc_unlock obj_vaddr)
  advance (malloc_unlock obj_vaddr) = do unlock_g_m; pure (resting obj_vaddr)
  advance (big_lock num_pages) = do lock_g_big_obj_m; pure (big_map num_pages)
  advance (big_map num_pages) = do
    shadow ← map_pages k num_pages
    pure (big_unlock shadow num_pages)
  advance (big_unlock shadow num_pages) = do unlock_g_big_obj_m; pure (big_header shadow num_pages)
  advance (big_header shadow num_pages) = do
    obj_vaddr ← write_header shadow num_pages
    pure (resting obj_vaddr)
  advance (free_start ptr) = do ensure_init k; find_object ptr
  advance (free_lock ptr) = do lock_g_m; pure (free_move ptr)
  advance (free_move ptr) = do move_object k ptr; pure free_unlock
  advance free_unlock = do unlock_g_m; pure (resting 0)
  advance (free_unmap ptr obj_size) = do free_big k ptr obj_size; pure (resting 0)
  -- xxmalloc_lock, and xxmalloc_unlock by the same thread
  advance both_first = do lock_g_m; pure both_second
  advance both_second = do lock_g_big_obj_m; pure both_held
  advance both_held = do unlock_g_m; pure both_rest
  advance both_rest = do unlock_g_big_obj_m; pure (resting 0)

abbrev pub update : {A : Type 0} → (ℕ → A) → ℕ → A → ℕ → A
update f t a u = ite (ℕ_discrete t u) a (f u)
