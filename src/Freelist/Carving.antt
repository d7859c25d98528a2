-- ===== src/Freelist/Carving.antt =====
-- Where `freelist_pop` carves objects in the data file.
use nuaf.Prelude.{ℕ, ◌+◌, ◌-◌, ◌/◌, ◌%◌, ◌≤◌, ◌<◌, ◌≡◌, ◌⊎◌, arith}
use nuaf.Prelude.Powers.{below_eight}
use nuaf.Words.{round_up}
use nuaf.Freelist.{next_canonical, block_size}

-- An object of `block_type` can be carved at `canonical`: it lies in one page behind the block type,
-- on the grid of its size, short of the page's last byte, and every eighth page is its type's.
pub record IsSlot (block_type canonical : ℕ) : Type 0 where
  pub behind_header : 16 ≤ canonical % 4096
  pub on_grid : (canonical % 4096 - 16) % block_size block_type ≡ 0
  pub in_page : canonical % 4096 + block_size block_type < 4096
  pub own_page : canonical / 4096 % 8 ≡ block_type

-- Behind a slot comes a slot of the same block type. The object at the first ends before the second,
-- which lies in the same page or eight pages on.
pub next_canonical-IsSlot :
    (block_type : ℕ)
    → block_type < 8
    → (canonical : ℕ) → IsSlot block_type canonical
    → IsSlot block_type (next_canonical block_type canonical)
      × (canonical + block_size block_type ≤ next_canonical block_type canonical)
      × ((next_canonical block_type canonical / 4096 ≡ canonical / 4096)
          ⊎ (next_canonical block_type canonical / 4096 ≡ canonical / 4096 + 8))
unfolding next_canonical round_up
next_canonical-IsSlot =
    below_eight
      (λ b.
        (c : ℕ)
        → IsSlot b c
        → IsSlot b (next_canonical b c)
          × (c + block_size b ≤ next_canonical b c)
          × ((next_canonical b c / 4096 ≡ c / 4096) ⊎ (next_canonical b c / 4096 ≡ c / 4096 + 8)))
      (λ c s. ground arith) (λ c s. ground arith) (λ c s. ground arith) (λ c s. ground arith)
      (λ c s. ground arith) (λ c s. ground arith) (λ c s. ground arith) (λ c s. ground arith)
