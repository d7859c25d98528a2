-- ===== src/Clients/Larson/Driver/Bounds.antt =====
-- The parts of the arrays of larson.cpp that its threads use.
use nuaf.Prelude.{ℕ, zero, suc, ◌+◌, ◌*◌, ◌%◌, ◌^◌, ◌≤◌, ◌<◌, ◌≡◌, refl, sym, List, inl, inr, arith}
use mathlib.Core.List.{Memᴰ}
use mathlib.Core.List.Memᴰ
use native.Mathlib.Nat.{mul-le-mul_right}
use nuaf.Prelude.Int.{pos}
use nuaf.Process.{Process}
use nuaf.Process.Ensures.{Ensures, returns, bind}
use nuaf.Process.Returns.{OkWith, OkWith-bind, OkWith-ok}
use mathlib.Core.Path.{subst}
use nuaf.Clients.{in_int}
use nuaf.Clients.Ints.{in_int-OkWith, in_int-ok}
use nuaf.Clients.Larson.Lran2.{Lran2, lran2, lran2_init}
use nuaf.Clients.Larson.Lran2.Range.{draws}
use nuaf.Clients.Larson.Threads.{ThreadData, setup_thread}
use nuaf.Clients.Larson.Driver.{Options, setup_threads}

module _ (o : Options) (blkp blksize : ℕ) where
  -- What `setup_thread` gives the thread `j`.
  pub record IsThread (j : ℕ) (t : ThreadData) : Type 0 where
    pub threadno_lem : t.threadno ≡ suc j
    pub array_lem : t.array ≡ blkp + 8 * (j * o.chperthread)
    pub blksize_lem : t.blksize ≡ blksize + 4 * (j * o.chperthread)
    pub asize_lem : t.asize ≡ o.chperthread
    pub min_lem : t.min_size ≡ o.min_size
    pub max_lem : t.max_size ≡ o.max_size
    pub num_blocks_lem : t.num_blocks ≡ o.num_rounds * o.chperthread
    pub allocs_lem : t.c_allocs ≡ 0
    pub frees_lem : t.c_frees ≡ 0
    pub old : Lran2
    pub rgen_lem : t.rgen ≡ lran2_init old (pos t.seed)

  -- What the loop gives every thread, where it returns.
  abbrev pub Threads : (n i : ℕ) → List ThreadData × Lran2 → Type 0
  Threads n i r = (t : ThreadData) → Memᴰ t r.0 → (j : ℕ) × (i ≤ j) × (j < i + n) × IsThread j t

  setup_thread-OkWith :
      (j : ℕ) (old d : Lran2) (s : Process)
      → OkWith
          (λ r. IsThread j r.0)
          (setup_thread o.min_size o.max_size blkp blksize o.num_rounds o.chperthread j old d s)
  unfolding setup_thread
  setup_thread-OkWith j old d s =
      OkWith-bind (in_int (o.num_rounds * o.chperthread) s) (in_int-OkWith _ s) λ nb s1 enb.
        OkWith-bind (in_int (j * o.chperthread) s1) (in_int-OkWith _ s1) λ en s2 een.
          OkWith-ok (record {
            threadno_lem = omega arith;
            array_lem = rw een refl;
            blksize_lem = rw een refl;
            asize_lem = refl;
            min_lem = refl;
            max_lem = refl;
            num_blocks_lem = enb;
            allocs_lem = refl;
            frees_lem = refl;
            old = old;
            rgen_lem = refl;
          })

  pub setup_threads-OkWith :
      (n i : ℕ) (old : ℕ → Lran2) (d : Lran2) (s : Process)
      → OkWith (Threads n i) (setup_threads o blkp blksize n i old d s)
  unfolding setup_threads
  setup_threads-OkWith zero i old d s = OkWith-ok (λ t here. absurd (Memᴰ.not-nil here))
  setup_threads-OkWith (suc n) i old d s =
      OkWith-bind
        (setup_thread o.min_size o.max_size blkp blksize o.num_rounds o.chperthread i (old i) d s)
        (setup_thread-OkWith i (old i) d s)
        λ r s1 is.
          OkWith-bind (setup_threads o blkp blksize n (i + 1) old r.1 s1)
            (setup_threads-OkWith n (i + 1) old r.1 s1)
            λ rest s2 others. OkWith-ok λ t here. elim (Memᴰ.cases_cons here) [
              | inl e ↦ (i, omega arith, omega arith, subst (IsThread i) (sym e) is)
              | inr later ↦
                  let (j, from, below, is') = others t later in (j, omega arith, omega arith, is')
            ]

  -- Where an int holds the products, the loop returns.
  pub setup_threads-returns :
      (n i : ℕ) (old : ℕ → Lran2) (d : Lran2) (s : Process)
      → o.num_rounds * o.chperthread < 2 ^ 31
      → (i + n) * o.chperthread < 2 ^ 31
      → Ensures ⊥ (λ r s'. s' ≡ s) (setup_threads o blkp blksize n i old d s)
  unfolding setup_threads setup_thread
  setup_threads-returns zero i old d s rounds fits = returns refl
  setup_threads-returns (suc n) i old d s rounds fits =
      let c = o.chperthread in
      let more : (i + 1 + n) * c < 2 ^ 31 =
        (let e : i + 1 + n ≡ i + suc n = omega arith in rw e fits) in
      let mine : i * c < 2 ^ 31 =
        (let le : i * c ≤ (i + suc n) * c = mul-le-mul_right c (omega arith) in omega arith) in
      rw (in_int-ok (o.num_rounds * c) s rounds, in_int-ok (i * c) s mine)
        (bind (setup_threads-returns n (i + 1) old (lran2 d).1 s rounds more) λ r s' e. returns e)

-- The index that `exercise_heap` computes from the `k`-th number after the first of the thread's generator.
pub victim : ThreadData → ℕ → ℕ
victim t k = (lran2 (draws k t.rgen)).0 % t.asize
