-- ===== src/Clients/ThreadTest.antt =====
-- CMA_benchmarks/threadtest/threadtest.cpp: the options, and what each thread does.
use nuaf.Prelude.{ℕ, ◌+◌, ◌*◌, ◌==◌, ltb, not, if◌then◌else◌}
use nuaf.Process.{Cmd, pure, ◌>>=◌, ◌>>◌, load_word, store_word, store_int}
use nuaf.Wrapper.{Heap, operator_delete}
use nuaf.Clients.{for_from, quot, assert, new_array}

-- The globals that the command line sets.
pub record ThreadTest : Type 0 where
  pub niterations : ℕ
  pub nobjects : ℕ
  pub nthreads : ℕ
  pub work : ℕ
  pub obj_size : ℕ

-- The options of `main`, with their defaults: `argument i` is atoi(argv[i]).
unfoldable pub test_options : (argc : ℕ) (argument : ℕ → ℕ) → ThreadTest
test_options argc argument = record {
  niterations = if ltb argc 3 then 50 else argument 2;
  nobjects = if ltb argc 4 then 30000 else argument 3;
  nthreads = if ltb argc 2 then 1 else argument 1;
  work = if ltb argc 5 then 0 else argument 4;
  obj_size = if ltb argc 6 then 1 else argument 5;
}

-- The constructor `Foo`, of two ints.
unfoldable pub foo : ℕ → Cmd (Unit {0})
foo p = do store_int p 14; store_int (p + 4) 29

-- The body of the loops that only take time: the last value of `f`.
unfoldable pub waste_one : ℕ → ℕ → Cmd ℕ
waste_one d f =
    let f1 : ℕ = 1 in let f2 = f1 + f1 in let f3 = f2 * f2 in let f4 = f3 + f3 in pure (f4 * f4)

unfoldable pub waste : (work : ℕ) → Cmd ℕ
waste work = for_from work 0 waste_one 0

module _ (h : Heap) where
  -- `a[i] = new Foo[objSize]`, the loop behind it, and the assert.
  unfoldable pub new_foos : (work obj_size a i : ℕ) → Unit {0} → Cmd (Unit {0})
  new_foos work obj_size a i u = do
    p ← new_array h 8 obj_size
    for_from obj_size 0 (λ j u. foo (p + 8 * j)) tt
    store_word (a + 8 * i) p
    waste work
    q ← load_word (a + 8 * i)
    assert (not (q == 0))

  -- `delete[] a[i]`, and the loop behind it.
  unfoldable pub delete_foos : (work a i : ℕ) → Unit {0} → Cmd (Unit {0})
  delete_foos work a i u = do
    p ← load_word (a + 8 * i)
    if p == 0 then pure tt else operator_delete h p
    waste work
    pure tt

  -- `worker`
  unfoldable pub test_worker : ThreadTest → Cmd (Unit {0})
  test_worker t = do
    n ← quot t.nobjects t.nthreads
    a ← new_array h 8 n
    for_from t.niterations 0
        (λ j u. for_from n 0 (new_foos t.work t.obj_size a) tt >>= λ _.
          for_from n 0 (delete_foos t.work a) tt)
        tt
    operator_delete h a
