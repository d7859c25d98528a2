-- ===== src/Threads/Large.antt =====
-- The steps of large objects: map_pages, the two words of the header, and munmap.
use native.Mathlib.Decide.{dec_lt}
use mathlib.Core.Path.{subst, fun_ext}
use nuaf.Prelude.{
  refl, ℕ, ◌+◌, ◌-◌, ◌*◌, ◌^◌, ◌≤◌, ◌<◌, ◌≡◌, ◌≢◌, sym, ap, ◌∙◌, inl, inr, true, List, Option, some,
  none, arith, ◌==◌,
}
use nuaf.Memory.{Vm, page}
use nuaf.Words.{add_size, mul_size, sub_size}
use nuaf.System.{System, IsLawful, Within, Outside, Mapped}
use nuaf.Process.{Process, ok, exit, pure, and_then}
use nuaf.Allocator.{map_pages, write_header, free_big}
use nuaf.Ownership.{large_first, unused, retired, big, Own, Layout}
use nuaf.Safety.Reuse.{same_page}
use nuaf.Safety.Big.{headed, headed-Outside, headed-IsBig, write_header_lem}
use nuaf.Safety.BigFree.{free_big-ok, shrunk-Layout}
use nuaf.Safety.Range.{
  assign_range, range_sides, assign_range_within, assign_range-Outside, Layout-range,
}
use nuaf.Threads.{resting, big_map, big_unlock, big_header, free_unmap}
use nuaf.Threads.World.{World, Claims, length}
use nuaf.Threads.Safe.{
  Reserved, IsSafe, Claimed, making, freeing, freeing_big, claimed, IsSafe-of_step,
}
use nuaf.Threads.Outcome.{Outcome, goes, ends, Refused, Good, known, unshared, g_m_kept, g_big_kept}

-- A large object of the program has no page in a range that nobody owns.
vacant-apart :
    {own : Own} {free : ℕ → List ℕ} {s : Process} (l : Layout own free s) (f n : ℕ)
    → ((p : ℕ) → Within f n p → own p ≡ unused)
    → (p f' n' : ℕ) → Outside f n p
    → own p ≡ big f' n'
    → (q : ℕ) → Within f' n' q
    → Outside f n q
vacant-apart {own} l f n vacant p f' n' out e q w = elim (range_sides f n q) [
  | inl inside ↦
      let new = vacant q inside in
      let old : own q ≡ big f' n' = l.whole p f' n' e q w in absurd (cc (new, old))
  | inr outside ↦ outside
]

module _ {k : System} (law : IsLawful k) (w : World) (safe : IsSafe w) (t : ℕ) where
  abbrev s : Process
  s = w.process

  abbrev first : ℕ
  first = page s.large_obj_next_page

  -- No page of another thread is in the range that comes next.
  next-apart : (n u p : ℕ) → Claims (w.pc u) (w.target u) p → Outside first n p
  next-apart n u p c = go (claimed w.own s (w.pc u) (w.target u) p (safe.knows u) c)
    where
      used : w.own p ≢ unused → p < first
      used ne = elim (dec_lt p first) [
        | yes lt ↦ lt
        | no ge ↦ absurd (ne (safe.layout.unused_big p (omega arith)))
      ]

      go : Claimed w.own s p → Outside first n p
      go (making now above below) = inl (omega arith)
      go (freeing x b now) = inl (omega (arith, used λ e. absurd (cc (now, e))))
      go (freeing_big m now) = inl (omega (arith, used λ e. absurd (cc (now, e))))

  -- The state after the mapping of `n` pages.
  abbrev extended : ℕ → Vm → Process
  extended n um = record s {
    vm = um;
    num_mappings = add_size s.num_mappings 1;
    large_obj_next_page = add_size s.large_obj_next_page (mul_size 4096 n);
  }

  module _ (n : ℕ) (at : w.pc t ≡ big_map n) (room : first + n ≤ 2 ^ 51) where
    mapped-Good :
        {v : ℕ} {um : Vm}
        → k.mmap_anonymous (first * 4096) (n * 4096) s.vm ≡ (some v, um)
        → Good w t (big_map n) (big_unlock v n) (extended n um)
    mapped-Good {v} {um} answer =
        let m : Mapped first n s.vm v um = law.mmap_anonymous-ok first n s.vm answer in
        let zero = law.mmap_anonymous-zero first n s.vm answer in
        let some_pages : 0 < n = known w safe t at in
        let vacant : (p : ℕ) → Within first n p → w.own p ≡ unused =
          λ p i. safe.layout.unused_big p i.0 in
        let above : large_first ≤ first = omega (arith, safe.layout.next_above) in
        let aligned : s.large_obj_next_page ≡ first * 4096 =
          omega (arith, safe.layout.next_aligned) in
        let next : (extended n um).large_obj_next_page ≡ (first + n) * 4096 =
          omega (arith, aligned) in
        let same : assign_range w.own first n unused ≡ w.own = fun_ext λ p.
          elim (range_sides first n p) [
            | inl i ↦ assign_range_within w.own first n unused p i ∙ sym (vacant p i)
            | inr out ↦ assign_range-Outside w.own first n unused p out
          ] in
        let layout =
          Layout-range safe.layout first n unused above m.others
            (vacant-apart safe.layout first n vacant) (extended n um).large_obj_next_page
            (add_size s.num_mappings 1) (omega (arith, next)) (omega (arith, next, aligned))
            (omega (arith, next)) (λ p i. tt) (λ f' n' e. absurd (cc e)) in
        let at_first : page v ≡ first = omega (arith, m.placed) in
        (
          IsSafe-of_step w safe t w.own (extended n um) (big_unlock v n) w.target safe.free
              (λ u ne. refl) (omega (arith, next, aligned))
              (subst (λ o. Layout o safe.free (extended n um)) same layout)
              (record {
                placed = omega (arith, m.placed);
                some_pages = some_pages;
                above = omega (arith, at_first, safe.layout.next_above);
                room = omega (arith, at_first);
                below = omega (arith, at_first, next);
                vacant = λ p i. vacant p (omega (arith, i), omega (arith, i));
                mapped = λ p i. m.mapped p (omega (arith, i), omega (arith, i));
                zero = λ b i. zero b (omega (arith, i), omega (arith, i));
              })
              (λ u p ne c.
                let out = next-apart n u p c in
                (λ d. omega (arith, out, d, at_first), (refl, m.others p out)))
              (g_m_kept w safe t at (big_unlock v n) (extended n um) refl refl)
              (g_big_kept w safe t at (big_unlock v n) (extended n um) refl refl),
          λ p gone. gone,
        )

    answered-Outcome :
        {W : Type 0} (r : Option ℕ × Vm)
        → k.mmap_anonymous s.large_obj_next_page (n * 4096) s.vm ≡ r
        → Outcome
            (Refused k s (big_map n))
            W
            (Good w t (big_map n))
            (and_then (map_pages k n s) (λ v. pure (big_unlock v n)))
    unfolding map_pages
    answered-Outcome (none, um) e =
        let len : mul_size n 4096 ≡ n * 4096 = omega arith in
        let run : map_pages k n s ≡ exit 1 = rw (len, e) refl in rw run (ends (um, e))
    answered-Outcome (some v, um) e =
        let aligned : s.large_obj_next_page ≡ first * 4096 =
          omega (arith, safe.layout.next_aligned) in
        let answer : k.mmap_anonymous (first * 4096) (n * 4096) s.vm ≡ (some v, um) =
          subst (λ a. k.mmap_anonymous a (n * 4096) s.vm ≡ (some v, um)) aligned e in
        let m : Mapped first n s.vm v um = law.mmap_anonymous-ok first n s.vm answer in
        let len : mul_size n 4096 ≡ n * 4096 = omega arith in
        let hit : (v == s.large_obj_next_page) ≡ true = ground (arith, m.placed, aligned) in
        rw (len, e, hit) (goes (mapped-Good answer))

    pub map-Outcome :
        {W : Type 0}
        → Outcome
            (Refused k s (big_map n))
            W
            (Good w t (big_map n))
            (and_then (map_pages k n s) (λ v. pure (big_unlock v n)))
    map-Outcome = answered-Outcome (k.mmap_anonymous s.large_obj_next_page (n * 4096) s.vm) refl

  module _ (v n : ℕ) (at : w.pc t ≡ big_header v n) where
    reserved : Reserved w.own s v n
    reserved = known w safe t at

    -- The pages as mmap has left them.
    blank : Mapped (page v) n s.vm v s.vm
    blank = record {
      placed = reserved.placed;
      mapped = reserved.mapped;
      others = λ p out. same_page s.vm p;
    }

    abbrev finished : Process
    finished = record s { vm = headed (page v) n s.vm }

    header-Good : Good w t (big_header v n) (resting (page v * 4096 + 16)) finished
    header-Good =
        let r = reserved in
        let f = page v in
        let same = headed-Outside blank r.zero r.some_pages r.room in
        (
          IsSafe-of_step w safe t (assign_range w.own f n (big f n)) finished
              (resting (f * 4096 + 16)) w.target safe.free (λ u ne. refl) (omega arith)
              (Layout-range safe.layout f n (big f n) r.above same
                (vacant-apart safe.layout f n r.vacant) s.large_obj_next_page s.num_mappings
                safe.layout.next_aligned (omega arith) r.below
                (headed-IsBig blank r.zero r.some_pages r.room r.above) (λ f' n' e. (cc, cc)))
              tt
              (λ u p ne c.
                let out = outside u p ne c in
                (λ d. d, (assign_range-Outside w.own f n (big f n) p out, same p out)))
              (g_m_kept w safe t at (resting (f * 4096 + 16)) finished refl refl)
              (g_big_kept w safe t at (resting (f * 4096 + 16)) finished refl refl),
          λ p gone. assign_range-Outside w.own f n (big f n) p (not_gone p gone) ∙ gone,
        )
      where
        outside : (u p : ℕ) → u ≢ t → Claims (w.pc u) (w.target u) p → Outside (page v) n p
        outside u p ne c = elim (range_sides (page v) n p) [
          | inl i ↦ absurd (unshared w safe t at u p ne c i)
          | inr out ↦ out
        ]

        not_gone : (p : ℕ) → w.own p ≡ retired → Outside (page v) n p
        not_gone p gone = elim (range_sides (page v) n p) [
          | inl i ↦ let new = reserved.vacant p i in absurd (cc (gone, new))
          | inr out ↦ out
        ]

    pub header-Outcome :
        {R W : Type 0}
        → Outcome R W
            (Good w t (big_header v n))
            (and_then (write_header v n s) (λ a. pure (resting a)))
    header-Outcome =
        let r = reserved in
        rw
          (write_header_lem (page v) n v s r.placed (omega (arith, r.room, r.some_pages))
            (r.mapped (page v) (omega (arith, r.some_pages), omega (arith, r.some_pages))))
          (goes header-Good)

  module _ (a size : ℕ) (at : w.pc t ≡ free_unmap a size) (um : Vm) where
    abbrev n : ℕ
    n = length (w.own (page a))

    abbrev shrunk : Process
    shrunk = record s { vm = um; num_mappings = sub_size s.num_mappings 1 }

    unmap-Good :
        (now : w.own (page a) ≡ big (page a) n)
        → 0 < n
        → k.munmap (page a * 4096) (n * 4096) s.vm ≡ (true, um)
        → Good w t (free_unmap a size) (resting 0) shrunk
    unmap-Good now some_pages unmapped =
        let f = page a in
        let (gone, same) = law.munmap-ok f n s.vm unmapped in
        (
          IsSafe-of_step w safe t (assign_range w.own f n retired) shrunk (resting 0) w.target
              safe.free (λ u ne. refl) (omega arith)
              (shrunk-Layout law safe.layout f n now some_pages unmapped) tt
              (λ u p ne c.
                let out = outside u p ne c in
                (λ d. d, (assign_range-Outside w.own f n retired p out, same p out)))
              (g_m_kept w safe t at (resting 0) shrunk refl refl)
              (g_big_kept w safe t at (resting 0) shrunk refl refl),
          λ p was. elim (range_sides f n p) [
            | inl i ↦ assign_range_within w.own f n retired p i
            | inr out ↦ assign_range-Outside w.own f n retired p out ∙ was
          ],
        )
      where
        mine :
            (u p : ℕ)
            → u ≢ t
            → Claims (w.pc u) (w.target u) p
            → w.own p ≡ big (page a) n
            → Claimed w.own s p
            → ⊥
        mine u p ne c here (making now' above below) = cc (here, now')
        mine u p ne c here (freeing x b now') = cc (here, now')
        mine u p ne c here (freeing_big m now') =
            let e : p ≡ page a = cc (here, now') in
            let (m, same, start, len, positive, is) = known w safe t at in
            unshared w safe t at u p ne c (e ∙ ap page same)

        outside : (u p : ℕ) → u ≢ t → Claims (w.pc u) (w.target u) p → Outside (page a) n p
        outside u p ne c = elim (range_sides (page a) n p) [
          | inl i ↦ absurd (
              mine u p ne c (safe.layout.whole (page a) (page a) n now p i)
                (claimed w.own s (w.pc u) (w.target u) p (safe.knows u) c))
          | inr out ↦ out
        ]

    pub unmap-Outcome :
        {R W : Type 0}
        → k.munmap (page a * 4096) (n * 4096) s.vm ≡ (true, um)
        → Outcome R W
            (Good w t (free_unmap a size))
            (and_then (free_big k a size s) (λ _. pure (resting 0)))
    unmap-Outcome unmapped =
        let (m, here, start, len, some_pages, is) = known w safe t at in
        let e : n ≡ m = ap length is in
        let now : w.own (page a) ≡ big (page a) n = is ∙ ap (big (page a)) (sym e) in
        let some : 0 < n = omega (arith, e) in
        let size_n : size ≡ n * 4096 - 16 = omega (arith, len, e) in
        let run : free_big k a size s ≡ ok tt shrunk =
          ap (λ x. free_big k x size s) start
          ∙ ap (λ z. free_big k (page a * 4096) z s) size_n
          ∙ free_big-ok law safe.layout (page a) n now some unmapped in
        rw run (goes (unmap-Good now some unmapped))
