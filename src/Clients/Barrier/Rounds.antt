-- ===== src/Clients/Barrier/Rounds.antt =====
-- The threads pass the barrier in rounds of `needed`.
use nuaf.Prelude.{
  ℕ, zero, suc, ◌+◌, ◌-◌, ◌*◌, ◌<◌, ◌≡◌, ◌≢◌, refl, sym, ◌∙◌, true, false, ◌==◌, if◌then◌else◌,
  arith,
}
use mathlib.Core.Path.{subst}
use nuaf.Clients.Barrier.{
  Barrier, barrier_init, barrier_enter, Threads, before, Step, broadcast, block, return,
  SpuriousStep, step, spurious, Reach, here, next,
}

-- After `rounds` full rounds: who is blocked belongs to the round under way.
pub record IsRound (needed rounds : ℕ) (t : Threads) : Type 0 where
  pub needed_kept : t.barrier.needed ≡ needed
  pub under_way : t.barrier.called < needed
  pub waiting : t.blocked ≡ t.barrier.called
  pub released : t.woken + t.passed ≡ rounds * needed
  pub all : t.arrived ≡ rounds * needed + t.barrier.called

broadcasts :
    (b : Barrier) {b' : Barrier}
    → barrier_enter b ≡ (b', true)
    → (b.called + 1 ≡ b.needed) × (b'.called ≡ 0) × (b'.needed ≡ b.needed)
unfolding barrier_enter
broadcasts b e = ground arith

blocks :
    (b : Barrier) {b' : Barrier}
    → barrier_enter b ≡ (b', false)
    → (b.called + 1 ≢ b.needed) × (b'.called ≡ b.called + 1) × (b'.needed ≡ b.needed)
unfolding barrier_enter
blocks b e = ground arith

Step-IsRound :
    {needed : ℕ} {t u : Threads}
    → (rounds : ℕ) × IsRound needed rounds t
    → Step t u
    → (rounds : ℕ) × IsRound needed rounds u
Step-IsRound {needed} {t} (rounds, r) (broadcast {b} e) =
    let (full, called, same) = broadcasts t.barrier e in
    (
      suc rounds,
      record {
        needed_kept = same ∙ r.needed_kept;
        under_way = omega (arith, called, r.under_way);
        waiting = sym called;
        released = omega (arith, r.released, r.waiting, full, r.needed_kept);
        all = omega (arith, r.all, full, called, r.needed_kept);
      },
    )
Step-IsRound {needed} {t} (rounds, r) (block {b} e) =
    let (open_round, called, same) = blocks t.barrier e in
    (
      rounds,
      record {
        needed_kept = same ∙ r.needed_kept;
        under_way = omega (arith, called, r.under_way, open_round, r.needed_kept);
        waiting = omega (arith, r.waiting, called);
        released = r.released;
        all = omega (arith, r.all, called);
      },
    )
Step-IsRound {needed} {t} (rounds, r) (return some) = (
  rounds,
  record {
    needed_kept = r.needed_kept;
    under_way = r.under_way;
    waiting = r.waiting;
    released = omega (arith, r.released);
    all = r.all;
  },
)

Reach-IsRound :
    {needed : ℕ} {t : Threads}
    → 0 < needed
    → Reach Step (before needed) t
    → (rounds : ℕ) × IsRound needed rounds t
unfolding barrier_init
Reach-IsRound {needed} some here = (
  0,
  record {
    needed_kept = refl;
    under_way = some;
    waiting = refl;
    released = omega arith;
    all = omega arith;
  },
)
Reach-IsRound some (next r st) = Step-IsRound (Reach-IsRound some r) st

enter_next :
    {needed : ℕ} (b : Barrier)
    → b.needed ≡ needed
    → barrier_enter b ≡ (
        if b.called + 1 == needed
        then (barrier_init needed, true)
        else (record { needed = needed; called = b.called + 1 }, false))
unfolding barrier_enter barrier_init
enter_next b same = rw same refl

-- Where pthread_cond_wait returns only after a broadcast: however calls of the barrier, which is not
-- for 0 threads, and returns follow each other, the number of threads let through is a multiple of
-- `needed` that the number of calls has reached; fewer than `needed` wait; and the next call
-- broadcasts exactly if all others of its round wait, and leaves the barrier as it was at first.
pub barrier_rounds :
    {needed : ℕ} {t : Threads}
    → 0 < needed
    → Reach Step (before needed) t
    → (rounds : ℕ) × (t.woken + t.passed ≡ rounds * needed)
      × (t.arrived ≡ rounds * needed + t.blocked)
      × (t.blocked < needed)
      × (barrier_enter t.barrier ≡ (
          if t.blocked + 1 == needed
          then (barrier_init needed, true)
          else (record { needed = needed; called = t.blocked + 1 }, false)))
barrier_rounds {t} some reach =
    let (rounds, r) = Reach-IsRound some reach in
    (
      rounds,
      r.released,
      omega (arith, r.all, r.waiting),
      omega (arith, r.waiting, r.under_way),
      rw r.waiting (enter_next t.barrier r.needed_kept),
    )

-- The woken threads return one after the other.
all_return :
    {t : Threads} (n : ℕ) (u : Threads)
    → u.woken ≡ n
    → Reach Step t u
    → Reach Step t (record u { woken = 0; passed = u.passed + n })
all_return {t} zero u e r =
    let same : record u { woken = 0; passed = u.passed + 0 } ≡ u = λ i. record u {
      woken = sym e i;
      passed = (let p : u.passed + 0 ≡ u.passed = omega arith in p) i;
    } in
    subst (Reach Step t) (sym same) r
all_return {t} (suc n) u e r =
    let more : 0 < u.woken = omega arith in
    let one : u.woken - 1 ≡ n = omega arith in
    let count : u.passed + 1 + n ≡ u.passed + suc n = omega arith in
    subst (λ p. Reach Step t (record u { woken = 0; passed = p })) count
      (all_return n (record u { woken = u.woken - 1; passed = u.passed + 1 }) one
        (next r (return more)))

-- When all threads of a round but one wait, the call of the last one leads to a state in which no
-- thread waits and every thread that ever called has returned.
pub barrier_opens :
    {needed : ℕ} {t : Threads}
    → 0 < needed
    → Reach Step (before needed) t
    → t.blocked + 1 ≡ needed
    → (u : Threads) × Reach Step t u
      × (u.blocked ≡ 0)
      × (u.woken ≡ 0)
      × (u.arrived ≡ t.arrived + 1)
      × (u.passed ≡ u.arrived)
barrier_opens {needed} {t} some reach last =
    let (rounds, released, all, few, enter) = barrier_rounds some reach in
    let full : (t.blocked + 1 == needed) ≡ true = ground arith in
    let opens : barrier_enter t.barrier ≡ (barrier_init needed, true) = rw full at enter in
    let u : Threads = record {
      barrier = barrier_init needed;
      blocked = 0;
      woken = t.woken + t.blocked;
      passed = t.passed + 1;
      arrived = t.arrived + 1;
    } in
    (
      record u { woken = 0; passed = u.passed + (t.woken + t.blocked) },
      all_return (t.woken + t.blocked) u refl (next here (broadcast opens)),
      refl,
      refl,
      refl,
      omega (arith, released, all, last),
    )

-- Where pthread_cond_wait may return with no broadcast, as POSIX allows, one thread gets through a
-- barrier for more than one thread before any other has called it.
pub barrier_leaks :
    (needed : ℕ)
    → 1 < needed
    → (t : Threads) × Reach SpuriousStep (before needed) t × (t.arrived ≡ 1) × (t.passed ≡ 1)
unfolding barrier_init barrier_enter
barrier_leaks needed more =
    let waits : (0 + 1 == needed) ≡ false = ground arith in
    let enter : barrier_enter (barrier_init needed)
        ≡ (record { needed = needed; called = 1 }, false) =
      rw waits refl in
    (
      _,
      next (next (next here (step (block enter))) (spurious (omega arith)))
          (step (return (omega arith))),
      refl,
      refl,
    )
