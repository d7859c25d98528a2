-- ===== src/Threads/Moves.antt =====
-- Every step of the threads together keeps the invariant, and no retired page comes back.
use mathlib.Core.Path.{subst, subst₂}
use nuaf.Prelude.{refl, ℕ, ◌+◌, ◌*◌, ◌%◌, ◌≤◌, ◌<◌, ◌≡◌, ◌≢◌, sym, ap, ◌∙◌, inl, inr, arith}
use nuaf.Memory.{Vm, page, read, write}
use nuaf.System.{System, IsLawful, SamePage, Within}
use nuaf.Process.{Process, Run, ok, store}
use nuaf.Process.Access.{SamePage-write}
use nuaf.Ownership.{unused, live, big, retired, Layout, IsObject}
use nuaf.Freelist.{block_size}
use nuaf.Allocator.{large_obj_start_magic}
use nuaf.Safety.Assign.{IsObject-of_live}
use nuaf.Safety.Reuse.{same_page}
use nuaf.Safety.Use.{store-Layout}
use nuaf.Safety.UseBig.{big_store-Layout}
use nuaf.Threads.{
  Pc, resting, malloc_start, free_start, both_first, holds_g_m, holds_g_big_obj_m, update,
}
use nuaf.Threads.Mutex.{update_self, update_other}
use nuaf.Threads.World.{
  World, Freeable, Claims, Granted, Move, Reach, go, begin_malloc, begin_free, begin_free_null,
  begin_lock, write_big, here, later,
}
use nuaf.Threads.World
use nuaf.Threads.Safe.{Knows, IsSafe, Knows-written, IsSafe-of_step}
use nuaf.Threads.Outcome.{Outcome, goes, ends, waits, still, g_m_kept, g_big_kept}
use nuaf.Threads.Turns.{advance-Outcome}

pub went :
    {R W : Type 0} {P : Pc → Process → Type 0} {r : Run Pc} {pc : Pc} {s : Process}
    → Outcome R W P r
    → r ≡ ok pc s
    → P pc s
went {P = P} (goes p) e = subst₂ P (cc) (cc) p
went (ends why) e = absurd (cc)
went (waits why) e = absurd (cc)

abbrev pub StaysRetired : World → World → Type 0
StaysRetired w w' = (p : ℕ) → w.own p ≡ retired → w'.own p ≡ retired

module _ (w : World) (safe : IsSafe w) where
  -- A thread begins a call that counts on no page yet.
  begin-IsSafe :
      (t r : ℕ) (next : Pc)
      → w.pc t ≡ resting r
      → Knows w.own w.process (w.target t) next
      → ((p : ℕ) → Claims next (w.target t) p → ⊥)
      → holds_g_m next ≡ holds_g_m (resting r)
      → holds_g_big_obj_m next ≡ holds_g_big_obj_m (resting r)
      → IsSafe (record w { pc = update w.pc t next })
  begin-IsSafe t r next at known' none m m' =
      still w safe t at next w.process.g_m w.process.g_big_obj_m known' (λ p c. none p c)
        (g_m_kept w safe t at next w.process refl m) (g_big_kept w safe t at next w.process refl m')

  begin_free-IsSafe :
      (t r x q : ℕ)
      → w.pc t ≡ resting r
      → q ≢ 0
      → Freeable w.own x q
      → ((u : ℕ) → Claims (w.pc u) (w.target u) (page x) → ⊥)
      → IsSafe (record w { pc = update w.pc t (free_start q); target = update w.target t x })
  begin_free-IsSafe t r x q at some able none =
      let same = update_self w.target t x in
      IsSafe-of_step w safe t w.own w.process (free_start q) (update w.target t x) safe.free
        (λ u ne. update_other w.target t x u ne) (omega arith) safe.layout
        (inr (some, subst (λ y. Freeable w.own y q) (sym same) able))
        (λ u p ne c. (
          λ d. none u (subst (Claims (w.pc u) (w.target u)) (d.1 ∙ ap page same) c),
          (refl, same_page w.process.vm p),
        ))
        (g_m_kept w safe t at (free_start q) w.process refl refl)
        (g_big_kept w safe t at (free_start q) w.process refl refl)

  -- A write to a page that somebody owns.
  written-IsSafe :
      (vm : Vm)
      → Layout w.own safe.free (record (w.process) { vm = vm })
      → ((p : ℕ) → w.own p ≡ unused → SamePage p w.process.vm vm)
      → IsSafe (record w { process = record (w.process) { vm = vm } })
  written-IsSafe vm layout others = record {
    free = safe.free;
    layout = layout;
    knows = λ t. Knows-written w.own w.process vm (w.pc t) (w.target t) others (safe.knows t);
    apart = safe.apart;
    g_m_guarded = safe.g_m_guarded;
    g_big_guarded = safe.g_big_guarded;
  }

  write-IsSafe :
      (a b l x v : ℕ)
      → w.own (page a) ≡ live a b
      → a ≤ x
      → x + l ≤ a + block_size b
      → 0 < l
      → (store l x v w.process ≡ ok tt (record (w.process) { vm = write l x v w.process.vm }))
        × IsSafe (record w { process = record (w.process) { vm = write l x v w.process.vm } })
  write-IsSafe a b l x v now lo hi some =
      let o : IsObject w.process.vm (page a) a b =
        IsObject-of_live (w.own (page a)) (safe.layout.holds (page a)) now in
      let (run, layout) = store-Layout safe.layout a b l x v now lo hi some in
      (
        run,
        written-IsSafe (write l x v w.process.vm) layout λ p new.
            SamePage-write l x (page a) v w.process.vm (omega (arith, o.in_page))
              (omega (arith, o.in_page)) p
              (λ e. let same = ap w.own e in absurd (cc (now, new, same))),
      )

  write_big-IsSafe :
      (f n l x v : ℕ)
      → w.own f ≡ big f n
      → f * 4096 + 16 ≤ x
      → x < (f + n) * 4096
      → x % 4096 + l ≤ 4096
      → 0 < l
      → ((p : ℕ)
          → Within f n p
          → p ≢ f
          → read 8 (p * 4096) (write l x v w.process.vm) ≢ large_obj_start_magic)
      → (store l x v w.process ≡ ok tt (record (w.process) { vm = write l x v w.process.vm }))
        × IsSafe (record w { process = record (w.process) { vm = write l x v w.process.vm } })
  write_big-IsSafe f n l x v now lo hi in_page some no_magic =
      let (run, layout) = big_store-Layout safe.layout f n l x v now lo hi in_page some no_magic in
      (
        run,
        written-IsSafe (write l x v w.process.vm) layout λ p new.
            SamePage-write l x (page x) v w.process.vm (omega arith) (omega arith) p (λ e.
              let same = ap w.own e in
              let owned = safe.layout.whole f f n now (page x) (omega arith, omega arith) in
              absurd (cc (owned, new, same))),
      )

module _ {k : System} (law : IsLawful k) where
  pub Move-IsSafe : {w w' : World} → IsSafe w → Move k w w' → IsSafe w' × StaysRetired w w'
  Move-IsSafe {w} safe (go t next granted run) =
      went (advance-Outcome law w safe t (w.pc t) refl granted) run
  Move-IsSafe {w} safe (begin_malloc t size {r} at) =
      (begin-IsSafe w safe t r (malloc_start size) at tt (λ p c. c) refl refl, λ p gone. gone)
  Move-IsSafe {w} safe (begin_free t x q {r} at some able none) =
      (begin_free-IsSafe w safe t r x q at some able none, λ p gone. gone)
  Move-IsSafe {w} safe (begin_free_null t {r} at) = (
    begin-IsSafe w safe t r (free_start 0) at (inl refl) (λ p c. c.0 refl) refl refl,
    λ p gone. gone,
  )
  Move-IsSafe {w} safe (begin_lock t {r} at) =
      (begin-IsSafe w safe t r both_first at tt (λ p c. c) refl refl, λ p gone. gone)
  Move-IsSafe {w} safe (World.write a b l x v now lo hi some run) =
      let (run', safe') = write-IsSafe w safe a b l x v now lo hi some in
      (subst (λ s. IsSafe (record w { process = s })) (cc (sym run' ∙ run)) safe', λ p gone. gone)
  Move-IsSafe {w} safe (write_big f n l x v now lo hi in_page some no_magic run) =
      let (run', safe') = write_big-IsSafe w safe f n l x v now lo hi in_page some no_magic in
      (subst (λ s. IsSafe (record w { process = s })) (cc (sym run' ∙ run)) safe', λ p gone. gone)

  pub Reach-IsSafe : {w w' : World} → IsSafe w → Reach k w w' → IsSafe w' × StaysRetired w w'
  Reach-IsSafe safe here = (safe, λ p gone. gone)
  Reach-IsSafe safe (later r mv) =
      let (safe', kept) = Reach-IsSafe safe r in
      let (safe'', kept') = Move-IsSafe safe' mv in (safe'', λ p gone. kept' p (kept p gone))
