-- ===== src/Clients/Larson/Serving/Stores.antt =====
-- The stores of a thread of larson.cpp: into the entries of its arrays and into its blocks.
use nuaf.Prelude.{
  ℕ, ◌+◌, ◌*◌, ◌%◌, ◌^◌, ◌≤◌, ◌<◌, ◌≡◌, ◌≢◌, sym, ◌∙◌, ap, ◌⊎◌, inl, inr, List, arith,
}
use nuaf.Memory.{read, write}
use nuaf.Memory.Bytes.{read-halves, read-write_self, read-write_apart}
use nuaf.System.{Within}
use nuaf.Process.{Process, ok, store}
use nuaf.Allocator.{large_obj_start_magic}
use nuaf.Ownership.{big, Own, Layout, Inv}
use nuaf.Safety.Assign.{IsBig-of_eq}
use nuaf.Safety.UseBig.{big_store-Layout}

-- Where an aligned store lies to the first word of a page.
word_place : (a x : ℕ) → a % 8 ≡ 0 → x % 8 ≡ 0 → (a ≡ x) ⊎ ((a + 8 ≤ x) ⊎ (x + 8 ≤ a))
word_place a x ea ex = omega arith

int_place :
    (a x : ℕ) → a % 8 ≡ 0 → x % 4 ≡ 0 → (a ≡ x) ⊎ ((a + 4 ≡ x) ⊎ ((a + 8 ≤ x) ⊎ (x + 4 ≤ a)))
int_place a x ea ex = omega arith

module _ {own : Own} {free : ℕ → List ℕ} {s : Process} (inv : Inv own free s) (f n : ℕ)
    (now : own f ≡ big f n) (x v : ℕ) (lo : f * 4096 + 16 ≤ x) where
  rest : (p : ℕ) → Within f n p → p ≢ f → read 8 (p * 4096) s.vm ≢ large_obj_start_magic
  rest p inside ne =
      (IsBig-of_eq (own p) (inv.layout.holds p) (inv.layout.whole f f n now p inside)).rest ne

  with-Layout :
      (w : ℕ)
      → (store w x v s ≡ ok tt (record s { vm = write w x v s.vm }))
        × Layout own free (record s { vm = write w x v s.vm })
      → (store w x v s ≡ ok tt (record s { vm = write w x v s.vm }))
        × Inv own free (record s { vm = write w x v s.vm })
  with-Layout w (run, layout) = (
    run,
    record { layout = layout; g_m_free = inv.g_m_free; g_big_obj_m_free = inv.g_big_obj_m_free },
  )

  -- A pointer above the first gigabyte, at a multiple of its width, is not the magic word.
  pub store_word-Inv :
      x % 8 ≡ 0
      → x + 8 ≤ (f + n) * 4096
      → 2 ^ 30 ≤ v
      → v < 2 ^ 64
      → (store 8 x v s ≡ ok tt (record s { vm = write 8 x v s.vm }))
        × Inv own free (record s { vm = write 8 x v s.vm })
  store_word-Inv at hi from to = with-Layout 8 (
      big_store-Layout inv.layout f n 8 x v now lo (omega arith) (omega arith) (omega arith)
        no_magic)
    where
      no_magic :
          (p : ℕ)
          → Within f n p
          → p ≢ f
          → read 8 (p * 4096) (write 8 x v s.vm) ≢ large_obj_start_magic
      no_magic p inside ne e = elim (word_place (p * 4096) x (omega arith) at) [
        | inl here ↦
            omega
              (arith, read-write_self 8 x v s.vm to, ap (λ a. read 8 a (write 8 x v s.vm)) here, e)
        | inr apart ↦ rest p inside ne (sym (read-write_apart 8 (p * 4096) 8 x v s.vm apart) ∙ e)
      ]

  -- So is not a size from 1 to 2048 beside another number of four bytes.
  pub store_int-Inv :
      x % 4 ≡ 0
      → x + 4 ≤ (f + n) * 4096
      → 0 < v
      → v ≤ 2048
      → (store 4 x v s ≡ ok tt (record s { vm = write 4 x v s.vm }))
        × Inv own free (record s { vm = write 4 x v s.vm })
  store_int-Inv at hi from to = with-Layout 4 (
      big_store-Layout inv.layout f n 4 x v now lo (omega arith) (omega arith) (omega arith)
        no_magic)
    where
      no_magic :
          (p : ℕ)
          → Within f n p
          → p ≢ f
          → read 8 (p * 4096) (write 4 x v s.vm) ≢ large_obj_start_magic
      no_magic p inside ne e =
          let wm = write 4 x v s.vm in
          let self = read-write_self 4 x v s.vm (omega arith) in
          let halves = read-halves (p * 4096) wm in
          elim (int_place (p * 4096) x (omega arith) at) [
            | inl here ↦ omega (arith, self, halves, ap (λ a. read 4 a wm) here, e)
            | inr (inl here) ↦ omega (arith, self, halves, ap (λ a. read 4 a wm) here, e)
            | inr (inr apart) ↦
                rest p inside ne (sym (read-write_apart 8 (p * 4096) 4 x v s.vm apart) ∙ e)
          ]
