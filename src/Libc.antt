-- ===== src/Libc.antt =====
-- The functions of the C library that wrapper.h calls on memory and strings, byte by byte.
use nuaf.Prelude.{ℕ, zero, suc, ◌+◌, ◌%◌, ◌^◌, ◌==◌, if◌then◌else◌}
use nuaf.Process.{diverged, Cmd, pure, ◌>>=◌, ◌>>◌, load, store}

unfoldable pub memset : ℕ → ℕ → ℕ → Cmd (Unit {0})
memset p c zero = pure tt
memset p c (suc n) = do store 1 p (c % 256); memset (p + 1) c n

unfoldable pub memcpy : ℕ → ℕ → ℕ → Cmd (Unit {0})
memcpy dest src zero = pure tt
memcpy dest src (suc n) = do c ← load 1 src; store 1 dest c; memcpy (dest + 1) (src + 1) n

-- The number of bytes before the first zero byte, at most `n`.
unfoldable pub strnlen : ℕ → ℕ → Cmd ℕ
strnlen s zero = pure 0
strnlen s (suc n) = do
  c ← load 1 s
  let rest = strnlen (s + 1) n
  if c == 0 then pure 0 else (do k ← rest; pure (suc k))

-- A string ends before the end of the address space, which has 2^64 bytes.
unfoldable pub strlen_from : ℕ → ℕ → ℕ → Cmd ℕ
strlen_from zero k s = λ _. diverged
strlen_from (suc fuel) k s = do
  c ← load 1 (s + k)
  let rest = strlen_from fuel (suc k) s
  if c == 0 then pure k else rest

abbrev pub address_space : ℕ
address_space = 2 ^ 64

unfoldable pub strlen : ℕ → Cmd ℕ
strlen s = strlen_from address_space 0 s

-- Copies up to the zero byte, and fills the rest with zero bytes.
unfoldable pub strncpy : ℕ → ℕ → ℕ → Cmd (Unit {0})
strncpy dest src zero = pure tt
strncpy dest src (suc n) = do
  c ← load 1 src
  let rest = strncpy (dest + 1) (src + 1) n
  if c == 0 then memset dest 0 (suc n) else (do store 1 dest c; rest)

unfoldable pub strcpy_from : ℕ → ℕ → ℕ → Cmd (Unit {0})
strcpy_from zero dest src = λ _. diverged
strcpy_from (suc fuel) dest src = do
  c ← load 1 src
  store 1 dest c
  let rest = strcpy_from fuel (dest + 1) (src + 1)
  if c == 0 then pure tt else rest

unfoldable pub strcpy : ℕ → ℕ → Cmd (Unit {0})
strcpy dest src = strcpy_from address_space dest src
