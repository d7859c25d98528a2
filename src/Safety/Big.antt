-- ===== src/Safety/Big.antt =====
-- `xxmalloc` of more than LARGEST_BLOCK_SIZE bytes.
use nuaf.Prelude.{
  ℕ, ◌+◌, ◌*◌, ◌/◌, ◌^◌, ◌≤◌, ◌<◌, ◌≡◌, ◌≢◌, refl, ◌∙◌, inl, inr, true, false, List, some, none,
  arith, ◌==◌,
}
use nuaf.Memory.{Vm, page, read, write}
use nuaf.Memory.Bytes.{mapped-write, read-write_apart, read-write_self}
use nuaf.Memory.Zero.{read-zero}
use nuaf.Words.{add_size, mul_size}
use nuaf.System.{System, IsLawful, Within, Outside, SamePage, Mapped, SamePage-trans}
use nuaf.Process.{Process, ok, exit, lock_g_big_obj_m, unlock_g_big_obj_m}
use nuaf.Process.Access.{store_ok, SamePage-write}
use nuaf.Allocator.{large_obj_start_magic, map_pages, write_header, map_big}
use nuaf.Ownership.{unused, big, Own, large_first, IsBig, Layout}
use nuaf.Safety.Range.{assign_range, range_sides, Layout-range}

-- The address space after the two header words were written at page `f`.
abbrev pub headed : ℕ → ℕ → Vm → Vm
headed f n um = write 8 (f * 4096 + 8) n (write 8 (f * 4096) large_obj_start_magic um)

module _ {f n a : ℕ} {vm um : Vm} (m : Mapped f n vm a um)
    (zero : (b : ℕ) → Within f n (page b) → um.byte b ≡ 0) (some_pages : 0 < n)
    (room : f + n ≤ 2 ^ 51) where
  headed_same : (p : ℕ) → p ≢ f → SamePage p um (headed f n um)
  headed_same p ne =
      let one =
        SamePage-write 8 (f * 4096) f large_obj_start_magic um (omega arith) (omega arith) p ne in
      let two =
        SamePage-write 8 (f * 4096 + 8) f n (write 8 (f * 4096) large_obj_start_magic um)
          (omega arith) (omega arith) p ne in
      SamePage-trans one two

  pub headed-Outside : (p : ℕ) → Outside f n p → SamePage p vm (headed f n um)
  headed-Outside p out =
      let one = m.others p out in let two = headed_same p (omega arith) in SamePage-trans one two

  headed_mapped : (p : ℕ) → (headed f n um).mapped p ≡ um.mapped p
  headed_mapped p =
      mapped-write 8 (f * 4096 + 8) n (write 8 (f * 4096) large_obj_start_magic um) p
      ∙ mapped-write 8 (f * 4096) large_obj_start_magic um p

  pub headed-IsBig : large_first ≤ f → (p : ℕ) → Within f n p → IsBig (headed f n um) p f n
  headed-IsBig above p w = record {
    above = above;
    room = room;
    within = w;
    mapped = headed_mapped p ∙ m.mapped p w;
    magic =
        read-write_apart 8 (f * 4096) 8 (f * 4096 + 8) n
          (write 8 (f * 4096) large_obj_start_magic um) (inl (omega arith))
        ∙ read-write_self 8 (f * 4096) large_obj_start_magic um (omega arith);
    count =
        read-write_self 8 (f * 4096 + 8) n (write 8 (f * 4096) large_obj_start_magic um)
          (omega arith);
    rest = λ ne e.
        let after : read 8 (p * 4096) (headed f n um) ≡ read 8 (p * 4096) um =
          read-write_apart 8 (p * 4096) 8 (f * 4096 + 8) n
            (write 8 (f * 4096) large_obj_start_magic um) (omega arith)
          ∙ read-write_apart 8 (p * 4096) 8 (f * 4096) large_obj_start_magic um (omega arith) in
        let fresh : read 8 (p * 4096) um ≡ 0 =
          read-zero 8 (p * 4096) um (λ i h. zero (p * 4096 + i) (omega arith)) in
        absurd (omega arith);
  }

-- The end of `xxmalloc_big`: the two header words, and the pointer behind them.
pub write_header_lem :
    (f n v : ℕ) (s : Process)
    → v ≡ f * 4096
    → f < 2 ^ 51
    → s.vm.mapped f ≡ true
    → write_header v n s ≡ ok (f * 4096 + 16) (record s { vm = headed f n s.vm })
unfolding write_header
write_header_lem f n v s at user m =
    let one =
      store_ok 8 (f * 4096) f s (omega arith) (omega arith) (omega arith) large_obj_start_magic m in
    let s1 : Process = record s { vm = write 8 (f * 4096) large_obj_start_magic s.vm } in
    let still : s1.vm.mapped f ≡ true =
      mapped-write 8 (f * 4096) large_obj_start_magic s.vm f ∙ m in
    let two = store_ok 8 (f * 4096 + 8) f s1 (omega arith) (omega arith) (omega arith) n still in
    let second : add_size (f * 4096) 8 ≡ f * 4096 + 8 = omega arith in
    let third : add_size (f * 4096) 16 ≡ f * 4096 + 16 = omega arith in
    rw (at, one, second, two, third) refl

-- The number of pages of a large object.
abbrev pub pages_for : ℕ → ℕ
pages_for size = (size + 16) / 4096 + 1

-- The state after a large object of `n` pages was mapped.
abbrev pub grown : Process → ℕ → Vm → Process
grown s n um = record s {
  vm = headed (page s.large_obj_next_page) n um;
  num_mappings = add_size s.num_mappings 1;
  large_obj_next_page = add_size s.large_obj_next_page (mul_size 4096 n);
}

module _ {k : System} (law : IsLawful k) {own : Own} {free : ℕ → List ℕ} {s : Process}
    (l : Layout own free s) (n : ℕ) (some_pages : 0 < n)
    (room : page s.large_obj_next_page + n ≤ 2 ^ 51) where
  abbrev first : ℕ
  first = page s.large_obj_next_page

  pub first-aligned : s.large_obj_next_page ≡ first * 4096
  first-aligned = omega (arith, l.next_aligned)

  first-above : large_first ≤ first
  first-above = omega (arith, l.next_above)

  pub map_big-ok :
      {v : ℕ} {um : Vm} (c : Process)
      → lock_g_big_obj_m c ≡ ok tt s
      → k.mmap_anonymous s.large_obj_next_page (n * 4096) s.vm ≡ (some v, um)
      → Mapped first n s.vm v um
      → map_big k n c ≡ ok (first * 4096 + 16) (record (grown s n um) { g_big_obj_m = false })
  unfolding map_big map_pages unlock_g_big_obj_m
  map_big-ok {v} {um} c locked e m =
      let len : mul_size n 4096 ≡ n * 4096 = omega arith in
      let hit : (v == s.large_obj_next_page) ≡ true = ground (arith, m.placed, first-aligned) in
      rw (locked, len, e, hit)
        (write_header_lem first n v (record (grown s n um) { vm = um; g_big_obj_m = false })
          m.placed (omega arith) (m.mapped first (omega arith)))

  pub map_big-refused :
      {um : Vm} (c : Process)
      → lock_g_big_obj_m c ≡ ok tt s
      → k.mmap_anonymous s.large_obj_next_page (n * 4096) s.vm ≡ (none, um)
      → map_big k n c ≡ exit 1
  unfolding map_big map_pages
  map_big-refused c locked e =
      let len : mul_size n 4096 ≡ n * 4096 = omega arith in rw (locked, len, e) refl

  -- A page of a large object is not in the range that comes next.
  big-apart :
      (p f' n' : ℕ)
      → Outside first n p
      → own p ≡ big f' n'
      → (q : ℕ) → Within f' n' q
      → Outside first n q
  big-apart p f' n' out e q w = elim (range_sides first n q) [
    | inl inside ↦
        let new : own q ≡ unused = l.unused_big q inside.0 in
        let old : own q ≡ big f' n' = l.whole p f' n' e q w in absurd (cc (new, old))
    | inr outside ↦ outside
  ]

  pub grown-Layout :
      {v : ℕ} {um : Vm}
      → Mapped first n s.vm v um
      → ((b : ℕ) → Within first n (page b) → um.byte b ≡ 0)
      → Layout (assign_range own first n (big first n)) free (grown s n um)
  grown-Layout {um} m zero =
      let same = headed-Outside m zero some_pages room in
      let st = big first n in
      let next : (grown s n um).large_obj_next_page ≡ (first + n) * 4096 =
        omega (arith, first-aligned) in
      Layout-range l first n st first-above same big-apart (grown s n um).large_obj_next_page
        (add_size s.num_mappings 1) (omega (arith, next)) (omega (arith, next, first-aligned))
        (omega (arith, next)) (headed-IsBig m zero some_pages room first-above)
        (λ f' n' e. (cc, cc))
