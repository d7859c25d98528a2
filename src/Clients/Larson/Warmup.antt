-- ===== src/Clients/Larson/Warmup.antt =====
-- `warmup` of larson.cpp, on the arrays `blkp` and `blksize` in memory.
pub mod Blocks
pub mod Shuffle
pub mod Swap
use nuaf.Prelude.{ℕ, zero, suc, ◌+◌, ◌-◌, ◌*◌, ◌%◌, ltb, ◌==◌, not, if◌then◌else◌}
use nuaf.Process.{Cmd, pure, ◌>>=◌, ◌>>◌, load_word, store_word, store_int}
use nuaf.Wrapper.{Heap, malloc, free}
use nuaf.Clients.{for_from, rem, assert}
use nuaf.Clients.Larson.Lran2.{Lran2, lran2}

-- `blk_size`: the remainder of a non-negative number by a negative one is that by its opposite.
unfoldable pub blk_size : (min_size max_size : ℕ) → Lran2 → ℕ × Lran2
blk_size min_size max_size d =
    if min_size == max_size
    then (min_size, d)
    else (let (r, d') = lran2 d in
        (
          min_size
              + r % (if ltb max_size min_size then min_size - max_size else max_size - min_size),
          d',
        ))

-- One round of the loop that shuffles: entry `cblks - 1` changes places with a random one before it
-- or itself.
unfoldable pub shuffle_one : (blkp cblks : ℕ) → Lran2 → Cmd Lran2
shuffle_one blkp cblks d = do
  let drawn = lran2 d
  victim ← rem drawn.0 cblks
  tmp ← load_word (blkp + 8 * victim)
  other ← load_word (blkp + 8 * (cblks - 1))
  store_word (blkp + 8 * victim) other
  store_word (blkp + 8 * (cblks - 1)) tmp
  pure drawn.1

-- The loop, from `cblks` down to 1.
unfoldable pub shuffle : (blkp cblks : ℕ) → Lran2 → Cmd Lran2
shuffle blkp zero d = pure d
shuffle blkp (suc n) d = shuffle_one blkp (suc n) d >>= shuffle blkp n

module _ (h : Heap) (min_size max_size blkp blksize : ℕ) where
  -- Allocates a block of a random size for entry `i`. `blksize` is the global array, while `blkp` is
  -- the argument of warmup.
  unfoldable pub new_block : ℕ → Lran2 → Cmd Lran2
  new_block i d = do
    let drawn = blk_size min_size max_size d
    p ← malloc h drawn.0
    store_word (blkp + 8 * i) p
    store_int (blksize + 4 * i) drawn.0
    q ← load_word (blkp + 8 * i)
    assert (not (q == 0))
    pure drawn.1

  -- One round of the last loop: a random entry is freed and allocated again.
  unfoldable pub replace_block : (num_chunks cblks : ℕ) → Lran2 → Cmd Lran2
  replace_block num_chunks cblks d = do
    let drawn = lran2 d
    victim ← rem drawn.0 num_chunks
    p ← load_word (blkp + 8 * victim)
    free h p
    new_block victim drawn.1

  unfoldable pub warmup : (num_chunks : ℕ) → Lran2 → Cmd Lran2
  warmup num_chunks d = do
    filled ← for_from num_chunks 0 new_block d
    shuffled ← shuffle blkp num_chunks filled
    for_from (4 * num_chunks) 0 (replace_block num_chunks) shuffled
