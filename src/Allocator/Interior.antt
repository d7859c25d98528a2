-- ===== src/Allocator/Interior.antt =====
-- `xxmalloc_usable_size` and `get_obj_start` at a pointer into a small object.
use nuaf.Prelude.{ℕ, ◌+◌, ◌-◌, ◌*◌, ◌%◌, ◌^◌, ◌≤◌, ◌<◌, ◌≡◌, refl, ◌∙◌, ap, false, arith, ◌==◌}
use nuaf.Prelude.Powers.{below_eight}
use nuaf.Memory.{page}
use nuaf.Words.{sub_size, add_size, round_down, page_start}
use nuaf.Words.Rounding.{round_down_lem, page_start-page}
use nuaf.Process.{Process, ok}
use nuaf.Process.Access.{load_ok}
use nuaf.Freelist.{block_size}
use nuaf.Allocator.{is_large, shifted_one, xxmalloc_usable_size, get_obj_start}
use nuaf.Ownership.{IsObject}

-- Sixteen bytes up, the objects of a type stand on the grid of their size.
grid :
    (b : ℕ)
    → b < 8
    → (a q : ℕ) → 16 ≤ a % 4096
    → (a % 4096 - 16) % block_size b ≡ 0
    → a % 4096 + block_size b < 4096
    → a ≤ q
    → q < a + block_size b
    → q - 16 - (q - 16) % block_size b + 16 ≡ a
grid =
    below_eight
      (λ b.
        (a q : ℕ)
        → 16 ≤ a % 4096
        → (a % 4096 - 16) % block_size b ≡ 0
        → a % 4096 + block_size b < 4096
        → a ≤ q
        → q < a + block_size b
        → q - 16 - (q - 16) % block_size b + 16 ≡ a)
      (λ a q h g i lo hi. omega arith) (λ a q h g i lo hi. omega arith)
      (λ a q h g i lo hi. omega arith) (λ a q h g i lo hi. omega arith)
      (λ a q h g i lo hi. omega arith) (λ a q h g i lo hi. omega arith)
      (λ a q h g i lo hi. omega arith) (λ a q h g i lo hi. omega arith)

shifted_one_block :
    (b : ℕ) → b < 8 → (s : Process) → shifted_one ((b + 4) % 2 ^ 32) s ≡ ok (block_size b) s
unfolding shifted_one
shifted_one_block =
    below_eight (λ b. (s : Process) → shifted_one ((b + 4) % 2 ^ 32) s ≡ ok (block_size b) s)
      (λ s. refl) (λ s. refl) (λ s. refl) (λ s. refl) (λ s. refl) (λ s. refl) (λ s. refl)
      (λ s. refl)

module _ (a b q : ℕ) (s : Process) (o : IsObject s.vm (page a) a b) (lo : a ≤ q)
    (hi : q < a + block_size b) where
  pub page-interior : page q ≡ page a
  page-interior = omega (arith, o.in_page)

  pub interior-user : (16 ≤ q) × (q < 0xFFFF000000)
  interior-user = omega (arith, o.above, o.below, page-interior)

  not_null : (q == 0) ≡ false
  not_null = ground (arith, interior-user)

  pub interior-small : is_large q ≡ false
  interior-small = ground (arith, interior-user)

  interior-page_start : page_start q ≡ page a * 4096
  interior-page_start =
      page_start-page q (omega (arith, interior-user)) ∙ ap (λ p. p * 4096) page-interior

  -- At any pointer into a small object of block type `b` that is mapped with its header,
  -- `xxmalloc_usable_size` returns the size of the type, and `get_obj_start` for that size returns the
  -- start of the object; neither changes anything.
  pub interior_lem :
      (xxmalloc_usable_size q s ≡ ok (block_size b) s) × (get_obj_start q (block_size b) s ≡ ok a s)
  unfolding xxmalloc_usable_size get_obj_start
  interior_lem = (
    rw
        (
          not_null,
          interior-small,
          interior-page_start,
          load_ok 4 (page a * 4096) (page a) s (omega arith) (omega arith) (omega arith) o.mapped,
          o.header,
        )
        (shifted_one_block b o.block_type s),
    rw (interior-small, start) refl,
  )
    where
      start : add_size (round_down (sub_size q 16) (block_size b)) 16 ≡ a
      start =
          let below : sub_size q 16 ≡ q - 16 = omega (arith, interior-user) in
          let found = grid b o.block_type a q o.behind_header o.on_grid o.in_page lo hi in
          rw (below, round_down_lem) (rw found (omega (arith, interior-user)))
