-- ===== src/Clients/Larson/Warmup/Swap.antt =====
-- The shuffle of larson.cpp on the blocks of the allocator.
use nuaf.Prelude.{
  ℕ, zero, suc, ◌-◌, ◌%◌, ◌≤◌, ◌<◌, ◌≡◌, ◌≢◌, sym, false, Bool-cases, inl, inr, ◌==◌, arith,
}
use native.Mathlib.Nat.{mod-lt}
use nuaf.Memory.{page}
use nuaf.Process.{Process}
use nuaf.Process.Ensures.{Ensures, returns, bind}
use nuaf.Clients.Larson.Lran2.{Lran2, lran2}
use nuaf.Clients.Larson.Warmup.{shuffle_one, shuffle}
use nuaf.Clients.Larson.Serving.{Arrays, IsServing-fewer, AllEntries, AllBut, load-entry}
use nuaf.Clients.Larson.Serving.Entries.{update, store-entry}
use nuaf.Clients.Larson.Serving.Running.{IsRunning}

-- Two entries have changed places, the one at `last` by way of `tmp`.
shuffle_one-IsRunning :
    (arrays : Arrays) (high m : ℕ) (d : Lran2) (s : Process)
    → m < arrays.asize
    → IsRunning arrays high s
    → Ensures ⊥ (λ d'. IsRunning arrays high) (shuffle_one arrays.array (suc m) d s)
unfolding shuffle_one
shuffle_one-IsRunning arrays high m d s lt (own, p, b, held) =
    let victim = (lran2 d).0 % suc m in
    let below : victim < suc m = mod-lt (lran2 d).0 (omega arith) in
    let lt' : victim < arrays.asize = omega (arith, below, lt) in
    let sv = held.serving in
    let last : suc m - 1 ≡ m = omega arith in
    let nonzero : (suc m == 0) ≡ false = ground arith in
    let (s1, run1, inv1, sv1, high1) =
      store-entry held.inv victim lt' (AllBut m) (p m) (b m) (λ j h ne. (h, ne))
        (IsServing-fewer {has' = λ j. (j ≢ m) × (j ≢ victim)} (λ j below h. tt) sv)
        (sv.owned m lt tt) (λ j below h. sv.apart m j lt below tt tt (λ e. h.0 (sym e))) in
    let fresh : (j : ℕ)
        → j < arrays.asize
        → AllBut m j
        → page (p victim) ≢ page (update p victim (p m) j) =
      λ j lj h. elim (Bool-cases (j == victim)) [
        | inl here ↦ rw here (sv.apart victim m lt' lt tt tt (ground arith))
        | inr other ↦ rw other (sv.apart victim j lt' lj tt tt (ground arith))
      ] in
    let (s2, run2, inv2, sv2, high2) =
      store-entry inv1 m lt AllEntries (p victim) (b victim) (λ j h ne. ne) sv1
        (sv.owned victim lt' tt) fresh in
    rw (nonzero, load-entry victim held.inv sv lt', last, load-entry m held.inv sv lt, run1, run2)
      (returns (
        own,
        update (update p victim (p m)) m (p victim),
        update (update b victim (b m)) m (b victim),
        record {
          free' = held.free';
          inv = inv2;
          serving = sv2;
          within = high2 high (high1 high held.within);
        },
      ))

-- The shuffle keeps the thread's blocks.
pub shuffle-IsRunning :
    (arrays : Arrays) (high n : ℕ) (d : Lran2) (s : Process)
    → n ≤ arrays.asize
    → IsRunning arrays high s
    → Ensures ⊥ (λ d'. IsRunning arrays high) (shuffle arrays.array n d s)
unfolding shuffle
shuffle-IsRunning arrays high zero d s le running = returns running
shuffle-IsRunning arrays high (suc n) d s le running =
    bind (shuffle_one-IsRunning arrays high n d s (omega arith) running)
      λ d' s1 running'. shuffle-IsRunning arrays high n d' s1 (omega arith) running'
