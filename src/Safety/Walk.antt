-- ===== src/Safety/Walk.antt =====
-- The walk down to the header of a large object, and what is read there.
use nuaf.Prelude.{
  ℕ, zero, suc, ◌+◌, ◌-◌, ◌*◌, ◌^◌, ◌<◌, ◌≡◌, ◌≢◌, refl, ap, ◌∙◌, true, false, List, arith, ◌==◌,
}
use nuaf.Memory.{page, read}
use nuaf.Words.{add_size, sub_size, mul_size, page_start}
use nuaf.Words.Rounding.{page_start-page}
use nuaf.System.{Within}
use nuaf.Process.{Process, ok}
use nuaf.Process.Access.{load_ok}
use nuaf.Allocator.{large_obj_start_magic, is_large, walk_down, xxmalloc_usable_size, get_obj_start}
use nuaf.Ownership.{big, Own, IsBig, Layout}
use nuaf.Safety.Assign.{IsBig-of_eq}

module _ {own : Own} {free : ℕ → List ℕ} {s : Process} (l : Layout own free s) (f n : ℕ)
    (now : own f ≡ big f n) (some_pages : 0 < n) where
  IsBig-page : (p : ℕ) → Within f n p → IsBig s.vm p f n
  IsBig-page p w = IsBig-of_eq (own p) (l.holds p) (l.whole f f n now p w)

  pub head : IsBig s.vm f f n
  head = IsBig-page f (omega arith)

  walk_stops : (fuel q : ℕ) → page q ≡ f → walk_down (suc fuel) q s ≡ ok q s
  unfolding walk_down
  walk_stops fuel q at =
      let user : q < 2 ^ 63 = omega (arith, head.room) in
      let start : page_start q ≡ f * 4096 = page_start-page q user ∙ ap (λ p. p * 4096) at in
      rw
        (
          start,
          load_ok 8 (f * 4096) f s (omega arith) (omega arith) (omega arith) head.mapped,
          head.magic,
        )
        refl

  walk_goes_on :
      (fuel q : ℕ)
      → Within f n (page q)
      → page q ≢ f
      → walk_down (suc fuel) q s ≡ walk_down fuel (q - 4096) s
  unfolding walk_down
  walk_goes_on fuel q w ne =
      let o : IsBig s.vm (page q) f n = IsBig-page (page q) w in
      let user : q < 2 ^ 63 = omega (arith, o.room) in
      let other : (read 8 (page q * 4096) s.vm == large_obj_start_magic) ≡ false =
        ground (arith, o.rest ne) in
      let down : sub_size q 4096 ≡ q - 4096 = omega (arith, o.above) in
      rw
        (
          page_start-page q user,
          load_ok 8 (page q * 4096) (page q) s (omega arith) (omega arith) (omega arith) o.mapped,
          other,
          down,
        )
        refl

  -- From any page of the object the walk arrives at its first page, `d` pages down.
  walk_down_lem :
      (d fuel q : ℕ) → page q ≡ f + d → d < n → d < fuel → walk_down fuel q s ≡ ok (q - d * 4096) s
  walk_down_lem d zero q at lt enough = absurd (omega arith)
  walk_down_lem zero (suc fuel) q at lt enough =
      walk_stops fuel q (omega arith) ∙ ap (λ t. ok t s) (omega arith)
  walk_down_lem (suc d) (suc fuel) q at lt enough =
      walk_goes_on fuel q (omega arith) (omega arith)
      ∙ walk_down_lem d fuel (q - 4096) (omega arith) (omega arith) (omega arith)
      ∙ ap (λ t. ok t s) (omega arith)

  module _ (q : ℕ) (inside : Within f n (page q)) where
    abbrev depth : ℕ
    depth = page q - f

    walk_all : walk_down (2 ^ 52) q s ≡ ok (q - depth * 4096) s
    walk_all = walk_down_lem depth (2 ^ 52) q (omega arith) (omega arith) (omega (arith, head.room))

    top_start : page_start (q - depth * 4096) ≡ f * 4096
    top_start =
        page_start-page (q - depth * 4096) (omega (arith, head.room))
        ∙ ap (λ p. p * 4096) (let e : page (q - depth * 4096) ≡ f = omega arith in e)

    pub interior-big : is_large q ≡ true
    interior-big = ground (arith, head.room, head.above)

    -- At any pointer into a large object of `n` pages, the header included, `xxmalloc_usable_size`
    -- returns its size without the header, and `get_obj_start` its first page; neither changes
    -- anything.
    pub walk_interior :
        (xxmalloc_usable_size q s ≡ ok (n * 4096 - 16) s)
        × ((size : ℕ) → get_obj_start q size s ≡ ok (f * 4096) s)
    unfolding xxmalloc_usable_size get_obj_start
    walk_interior =
        let not_null : (q == 0) ≡ false = ground (arith, head.above) in
        let second : add_size (f * 4096) 8 ≡ f * 4096 + 8 = omega (arith, head.room) in
        let size : sub_size (mul_size n 4096) 16 ≡ n * 4096 - 16 = omega (arith, head.room) in
        (
          rw
              (
                not_null,
                interior-big,
                walk_all,
                top_start,
                second,
                load_ok 8 (f * 4096 + 8) f s (omega arith) (omega arith) (omega arith) head.mapped,
                head.count,
                size,
              )
              refl,
          λ t. rw (interior-big, walk_all, top_start) refl,
        )
