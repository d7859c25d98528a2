-- ===== src/Freelist/Push.antt =====
-- `freelist_push` at an object whose page holds its block type.
use nuaf.Prelude.{ℕ, ◌+◌, ◌*◌, ◌%◌, ◌^◌, ◌≤◌, ◌<◌, ◌≡◌, refl, ◌∙◌, ap, true, arith, ltb}
use nuaf.Memory.{page, read, write}
use nuaf.Words.{page_start}
use nuaf.Words.Rounding.{page_start-page}
use nuaf.Process.{Process, ok}
use nuaf.Process.Access.{load_ok, store_ok}
use nuaf.Freelist.{set_flst, freelist_push}

-- The object becomes the top of the freelist of its type, and its first eight bytes the old top.
pub freelist_push_lem :
    (o b p : ℕ) (s : Process)
    → b < 8
    → page o ≡ p
    → p < 2 ^ 51
    → o % 4096 + 8 ≤ 4096
    → s.vm.mapped p ≡ true
    → read 4 (p * 4096) s.vm ≡ b
    → freelist_push o s
      ≡ ok tt (record s {
        vm = write 8 o (s.g_flsts b).top_of_stack s.vm;
        g_flsts = set_flst s.g_flsts b (record (s.g_flsts b) { top_of_stack = o });
      })
unfolding freelist_push
freelist_push_lem o b p s small at user fits m header =
    let start : page_start o ≡ p * 4096 = page_start-page o (omega arith) ∙ ap (λ q. q * 4096) at in
    let in_range : ltb b 8 ≡ true = ground arith in
    rw
      (
        start,
        load_ok 4 (p * 4096) p s (omega arith) (omega arith) (omega arith) m,
        header,
        in_range,
        store_ok 8 o p s at (omega arith) fits (s.g_flsts b).top_of_stack m,
      )
      refl
