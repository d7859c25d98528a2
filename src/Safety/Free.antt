-- ===== src/Safety/Free.antt =====
-- `xxfree` at a pointer into a small object that the program owns.
use nuaf.Prelude.{
  ℕ, ◌+◌, ◌*◌, ◌%◌, ◌^◌, ◌≤◌, ◌<◌, ◌≡◌, ◌≢◌, refl, ◌∙◌, ap, true, false, List, [], ◌∷◌, some, arith,
  ◌==◌,
}
use mathlib.Core.Path.{subst}
use nuaf.Memory.{Vm, page, write}
use nuaf.Memory.Bytes.{file_length-write}
use nuaf.Words.{add_size, page_offset}
use nuaf.Words.Rounding.{page_start-page, page_offset-page}
use nuaf.System.{System, IsLawful, SamePage, Moved}
use nuaf.Process.{Process, ok, lock_g_m, unlock_g_m}
use nuaf.Process.Ensures.{Ensures, returns}
use nuaf.Freelist.{block_size, freelist_push}
use nuaf.Freelist.Push.{freelist_push_lem}
use nuaf.Allocator.{large_obj_vaddr_start, is_large, remap_loop, move_object, free_small, xxfree}
use nuaf.Allocator.Interior.{interior-user, interior-small, interior_lem}
use nuaf.Allocator.Remap.{remap_loop-success}
use nuaf.Ownership.{
  unused, live, idle, retired, Own, assign, IsObject, Chain, Layout, Layout-relock, Inv,
}
use nuaf.Ownership.Frame.{block_size_bounds}
use nuaf.Safety.Files.{IsSteady}
use nuaf.Safety.Assign.{IsObject-of_idle, IsObject-of_live}
use nuaf.Safety.Malloc.{ensure_init_ready}
use nuaf.Safety.Retire.{pushed, pushed_free, retire-Layout, pushed-Layout}
use nuaf.Safety.Moved.{
  between, between-old, between-others, written-others, written-same, written-link, moved-IsObject,
  header-moved,
}

-- Who owns the pages once the object `a` of block type `b` has been freed in the state `s`.
abbrev pub freed_own : Own → Process → ℕ → ℕ → Own
freed_own own s a b =
    assign (assign own (page a) retired) (page s.high_vaddr)
      (idle (page s.high_vaddr * 4096 + a % 4096) b)

-- What `free_small` leaves of the ownership, the address space and the counters.
pub record Released (own : Own) (free : ℕ → List ℕ) (s : Process) (a b : ℕ) (s' : Process)
    : Type 0 where
  pub fresh_unused : own (page s.high_vaddr) ≡ unused
  pub free' : ℕ → List ℕ
  pub lists : free' ≡ pushed_free free b (page s.high_vaddr * 4096 + a % 4096)
  pub layout : Layout (freed_own own s a b) free' s'
  pub others : (p : ℕ) → p ≢ page a → p ≢ page s.high_vaddr → SamePage p s.vm s'.vm
  pub next_kept : s'.large_obj_next_page ≡ s.large_obj_next_page
  pub big_kept : s'.g_big_obj_m ≡ s.g_big_obj_m
  pub high_grows : s'.high_vaddr ≤ s.high_vaddr + 4096
  pub high_moves : s.high_vaddr + 4096 ≤ s'.high_vaddr
  pub steady : IsSteady 0 s s'

top-user :
    {own : Own} {free : ℕ → List ℕ} {s : Process} (l : Layout own free s) (b : ℕ) (xs : List ℕ)
    → Chain own s.vm b (s.g_flsts b).top_of_stack xs
    → (s.g_flsts b).top_of_stack < 2 ^ 64
top-user l b [] chain = omega (arith, chain)
top-user {own} {s} l b (a ∷ xs) chain =
    let o : IsObject s.vm (page a) a b =
      IsObject-of_idle (own (page a)) (l.holds (page a)) chain.1 in
    omega (arith, chain.0, o.below)

module _ {k : System} (law : IsLawful k) {own : Own} {free : ℕ → List ℕ} {s : Process}
    (l : Layout own free s) (room : s.high_vaddr < 0xFFFF000000) (a b : ℕ)
    (now : own (page a) ≡ live a b) {v : ℕ} {um : Vm}
    (remapped : k.mremap (page a * 4096) 4096 4096 s.high_vaddr s.vm ≡ (some v, um)) where
  abbrev new : ℕ
  new = page s.high_vaddr

  abbrev moved_to : ℕ
  moved_to = new * 4096 + a % 4096

  object : IsObject s.vm (page a) a b
  object = IsObject-of_live (own (page a)) (l.holds (page a)) now

  new-unused : own new ≡ unused
  new-unused = l.unused_small new (omega arith) (omega arith)

  old-ne-new : page a ≢ new
  old-ne-new e = cc (now, new-unused, ap own e)

  remap-Moved : Moved (page a) 1 new s.vm v um
  remap-Moved =
      let at : s.high_vaddr ≡ new * 4096 = omega (arith, l.high_aligned) in
      law.mremap-ok (page a) 1 new s.vm (omega arith) (omega (arith, old-ne-new))
        (subst (λ t. k.mremap (page a * 4096) 4096 4096 t s.vm ≡ (some v, um)) at remapped)

  remap_loop_first : remap_loop k 99 1 (page a * 4096) s ≡ ok (v, 2) (record s { vm = um })
  remap_loop_first =
      let placed = remap-Moved.placed in
      remap_loop-success k 98 1 (page a * 4096) s remapped (ground arith)

  released-Layout :
      Layout
        (assign (assign own (page a) retired) new (idle moved_to b))
        (pushed_free free b moved_to)
        (pushed s b moved_to (write 8 moved_to (s.g_flsts b).top_of_stack um))
  released-Layout =
      let m = remap-Moved in
      let top = (s.g_flsts b).top_of_stack in
      let fits : moved_to % 4096 + 8 ≤ 4096 =
        omega (arith, object.in_page, block_size_bounds b object.block_type) in
      let half =
        retire-Layout l (page a) a b {wm = between new s.vm um} now (between-old m old-ne-new)
          (between-others m) in
      pushed-Layout half b moved_to room
        (moved-IsObject m top object (omega (arith, l.high_above)) (omega arith))
        (written-link m moved_to top (omega arith) fits
          (top-user l b (free b) (l.chains b object.block_type)))
        (written-others m moved_to top (omega arith) fits)

  -- The run behind `lock_g_m`, from the loop on.
  push_run :
      freelist_push moved_to (record s { vm = um; high_vaddr = add_size s.high_vaddr 4096 })
      ≡ ok tt (pushed s b moved_to (write 8 moved_to (s.g_flsts b).top_of_stack um))
  push_run =
      let m = remap-Moved in
      let below : page a < 0xFFFF000 = object.below in
      freelist_push_lem moved_to b new
        (record s { vm = um; high_vaddr = add_size s.high_vaddr 4096 }) object.block_type
        (omega arith) (omega arith)
        (omega (arith, object.in_page, block_size_bounds b object.block_type)) m.arrived
        (header-moved m ∙ object.header)

  pub move_object-ok :
      move_object k a s
      ≡ ok tt (pushed s b moved_to (write 8 moved_to (s.g_flsts b).top_of_stack um))
  unfolding move_object
  move_object-ok =
      let user : a < 2 ^ 63 = omega (arith, object.below) in
      let placed : v ≡ new * 4096 = remap-Moved.placed in
      let target : add_size v (page_offset a) ≡ moved_to =
        rw (page_offset-page a user, placed) (omega (arith, object.below)) in
      rw (page_start-page a user, remap_loop_first, target, push_run) refl

  free_small-released :
      (c : Process)
      → lock_g_m c ≡ ok tt s
      → free_small k a c
        ≡ ok tt (record (pushed s b moved_to (write 8 moved_to (s.g_flsts b).top_of_stack um)) {
          g_m = false;
        })
  unfolding free_small unlock_g_m
  free_small-released c locked = rw (locked, move_object-ok) refl

  released-IsSteady :
      IsSteady 0 s (pushed s b moved_to (write 8 moved_to (s.g_flsts b).top_of_stack um))
  released-IsSteady = record {
    same_file = refl;
    files = file_length-write 8 moved_to (s.g_flsts b).top_of_stack um ∙ remap-Moved.files;
    carved = λ c h. ground arith;
  }

  pub released :
      Released own free s a b (pushed s b moved_to (write 8 moved_to (s.g_flsts b).top_of_stack um))
  released = record {
    fresh_unused = new-unused;
    free' = pushed_free free b moved_to;
    lists = refl;
    layout = released-Layout;
    others =
        written-same remap-Moved moved_to (s.g_flsts b).top_of_stack (omega arith)
          (omega (arith, object.in_page, block_size_bounds b object.block_type));
    next_kept = refl;
    big_kept = refl;
    high_grows = omega arith;
    high_moves = omega arith;
    steady = released-IsSteady;
  }

-- The object `a` of block type `b` has been given back: its page is retired, the object lies at the
-- same place of a page that was unused and heads the freelist of its block type, the other freelists
-- are as before, no other page has changed, and the invariant holds.
pub record Freed (own : Own) (free : ℕ → List ℕ) (s : Process) (a b : ℕ) (u : Unit {0})
    (s' : Process) : Type 0 where
  pub fresh_unused : own (page s.high_vaddr) ≡ unused
  pub free' : ℕ → List ℕ
  pub lists : free' ≡ pushed_free free b (page s.high_vaddr * 4096 + a % 4096)
  pub inv : Inv (freed_own own s a b) free' s'
  pub others : (p : ℕ) → p ≢ page a → p ≢ page s.high_vaddr → SamePage p s.vm s'.vm
  pub next_kept : s'.large_obj_next_page ≡ s.large_obj_next_page
  pub high_grows : s'.high_vaddr ≤ s.high_vaddr + 4096
  pub high_moves : s.high_vaddr + 4096 ≤ s'.high_vaddr
  pub steady : IsSteady 0 s s'

-- A call of xxfree with any pointer `q` into a small object that the program owns, in a state of the
-- invariant, while the small region has room and if the first mremap succeeds, returns, and the
-- object is `Freed`.
pub xxfree-Freed :
    {k : System} {own : Own} {free : ℕ → List ℕ} {s : Process} (a b q : ℕ) {v : ℕ} {um : Vm}
    → IsLawful k
    → Inv own free s
    → s.high_vaddr < large_obj_vaddr_start
    → own (page a) ≡ live a b
    → a ≤ q
    → q < a + block_size b
    → k.mremap (page a * 4096) 4096 4096 s.high_vaddr s.vm ≡ (some v, um)
    → Ensures ⊥ (Freed own free s a b) (xxfree k q s)
unfolding xxfree lock_g_m
xxfree-Freed {k} {own} {s} a b q law inv room now lo hi remapped =
    let o : IsObject s.vm (page a) a b =
      IsObject-of_live (own (page a)) (inv.layout.holds (page a)) now in
    let l = Layout-relock true s.g_big_obj_m inv.layout in
    let (usable, start) = interior_lem a b q s o lo hi in
    let not_null : (q == 0) ≡ false = ground (arith, interior-user a b q s o lo hi) in
    let low : is_large a ≡ false =
      interior-small a b a s o (omega arith) (omega (arith, block_size_bounds b o.block_type)) in
    let done = released law l room a b now remapped in
    let locked : lock_g_m s ≡ ok tt (record s { g_m = true }) = rw inv.g_m_free refl in
    rw
      (
        ensure_init_ready k s inv.layout.ready,
        not_null,
        usable,
        start,
        low,
        free_small-released law l room a b now remapped s locked,
      )
      (returns (record {
        fresh_unused = done.fresh_unused;
        free' = done.free';
        lists = done.lists;
        inv = record {
          layout = Layout-relock false s.g_big_obj_m done.layout;
          g_m_free = refl;
          g_big_obj_m_free = inv.g_big_obj_m_free;
        };
        others = done.others;
        next_kept = refl;
        high_grows = done.high_grows;
        high_moves = done.high_moves;
        steady = record {
          same_file = done.steady.same_file;
          files = done.steady.files;
          carved = done.steady.carved;
        };
      }))
