-- ===== src/Process.antt =====
-- The global variables of allocator.c and freelist.c beside the address space, and the ways in which
-- a call can end. A `Cmd` is a piece of C code that runs on that state.
pub mod Access
pub mod Ensures
pub mod Returns
use nuaf.Prelude.{
  ℕ, ◌+◌, ◌-◌, ◌/◌, ◌%◌, ◌^◌, Bool, true, false, Option, none, some, ◌==◌, if◌then◌else◌,
}
use nuaf.Memory.{Vm, read, write, accessible}

-- `freelist_t`
pub record Freelist : Type 0 where
  pub top_of_stack : ℕ
  pub high_canonical_addr : ℕ

-- `g_m` and `g_big_obj_m` tell whether the mutex is held. `g_flsts` is read below NUM_BLOCK_TYPES.
pub record Process : Type 0 where
  pub vm : Vm
  pub num_mappings : ℕ
  pub data_fd : ℕ
  pub high_vaddr : ℕ
  pub large_obj_next_page : ℕ
  pub par_ps : ℕ
  pub g_m : Bool
  pub g_big_obj_m : Bool
  pub g_flsts : ℕ → Freelist

-- `exit n`: the code called exit(n). `segv a`: an access at the address `a`, which raises SIGSEGV as it
-- is not mapped, or SIGBUS as it is mapped past the end of a file. `undefined`: undefined behaviour of C. `blocked`: the thread waits for a mutex that is
-- held. `diverged`: a loop that never ends. `aborted`: a failed assert, or an exception that nothing
-- catches.
pub data Run (A : Type 0) : Type 0 where
  ok : A → Process → Run A
  exit : ℕ → Run A
  segv : ℕ → Run A
  undefined : Run A
  blocked : Run A
  diverged : Run A
  aborted : Run A

abbrev pub Cmd : Type 0 → Type 0
Cmd A = Process → Run A

abbrev pub pure : {A : Type 0} → A → Cmd A
pure = ok

module _ {A B : Type 0} where
  abbrev pub and_then : Run A → (A → Cmd B) → Run B
  and_then (ok a s) k = k a s
  and_then (exit n) k = exit n
  and_then (segv a) k = segv a
  and_then undefined k = undefined
  and_then blocked k = blocked
  and_then diverged k = diverged
  and_then aborted k = aborted

  infixl 5 ◌>>=◌ ◌>>◌
  abbrev pub ◌>>=◌ : Cmd A → (A → Cmd B) → Cmd B
  m >>= k = λ s. and_then (m s) k

  abbrev pub ◌>>◌ : Cmd A → Cmd B → Cmd B
  m >> n = m >>= λ _. n

abbrev pub get : Cmd Process
get s = ok s s

abbrev pub put : Process → Cmd (Unit {0})
put s _ = ok tt s

-- A system call's effect on the address space.
abbrev pub call : {A : Type 0} → (Vm → A × Vm) → Cmd A
call f s = let (a, wm) = f s.vm in ok a (record s { vm = wm })

-- A load and a store of `w` bytes at `a`.
unfoldable pub load : ℕ → ℕ → Cmd ℕ
load w a s = if accessible w a s.vm then ok (read w a s.vm) s else segv a

unfoldable pub store : ℕ → ℕ → ℕ → Cmd (Unit {0})
store w a v s = if accessible w a s.vm then ok tt (record s { vm = write w a v s.vm }) else segv a

-- `*(int*)a`, `*(size_t*)a`, `*(void**)a`
abbrev pub load_int : ℕ → Cmd ℕ
load_int = load 4

abbrev pub store_int : ℕ → ℕ → Cmd (Unit {0})
store_int = store 4

abbrev pub load_word : ℕ → Cmd ℕ
load_word = load 8

abbrev pub store_word : ℕ → ℕ → Cmd (Unit {0})
store_word = store 8

-- pthread_mutex_lock and pthread_mutex_unlock on the two default mutexes.
unfoldable pub lock_g_m : Cmd (Unit {0})
lock_g_m s = if s.g_m then blocked else ok tt (record s { g_m = true })

unfoldable pub unlock_g_m : Cmd (Unit {0})
unlock_g_m s = ok tt (record s { g_m = false })

unfoldable pub lock_g_big_obj_m : Cmd (Unit {0})
lock_g_big_obj_m s = if s.g_big_obj_m then blocked else ok tt (record s { g_big_obj_m = true })

unfoldable pub unlock_g_big_obj_m : Cmd (Unit {0})
unlock_g_big_obj_m s = ok tt (record s { g_big_obj_m = false })
