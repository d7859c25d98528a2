-- ===== src/Safety/Start.antt =====
-- `init_mem` establishes the invariant.
use nuaf.Prelude.{ℕ, ◌<◌, ◌≡◌, ◌≢◌, refl, true, false, List, [], some, arith, ◌==◌}
use nuaf.Prelude.Powers.{below_eight}
use nuaf.Memory.{Vm, page}
use nuaf.System.{System, IsLawful}
use nuaf.Process.{Process, Freelist}
use nuaf.Process.Ensures.{Ensures, returns}
use nuaf.Freelist.{freelist_init, init_from}
use nuaf.Freelist.Carving.{IsSlot}
use nuaf.Allocator.{data_size, start, init_mem}
use nuaf.Safety.Files.{HasPages}
use nuaf.Ownership.{unused, Own, Inv}

abbrev pub nobody : Own
nobody p = unused

abbrev pub no_objects : ℕ → List ℕ
no_objects b = []

-- Every freelist is empty, and is carved from the page of its number.
pub record IsInitial (g : ℕ → Freelist) : Type 0 where
  pub empty : (b : ℕ) → b < 8 → (g b).top_of_stack ≡ 0
  pub slots : (b : ℕ) → b < 8 → IsSlot b (g b).high_canonical_addr

pub init_from-IsInitial : (g : ℕ → Freelist) → IsInitial (init_from 8 0 g)
unfolding init_from
init_from-IsInitial g = record {
  empty =
      below_eight (λ b. (init_from 8 0 g b).top_of_stack ≡ 0) refl refl refl refl refl refl refl
        refl;
  slots =
      below_eight (λ b. IsSlot b (init_from 8 0 g b).high_canonical_addr) (omega arith)
        (omega arith) (omega arith) (omega arith) (omega arith) (omega arith) (omega arith)
        (omega arith);
}

first_pages : (g : ℕ → Freelist) (b : ℕ) → b < 8 → page (init_from 8 0 g b).high_canonical_addr ≡ b
unfolding init_from
first_pages g =
    below_eight (λ b. page (init_from 8 0 g b).high_canonical_addr ≡ b) refl refl refl refl refl
      refl refl refl

-- A process that has not run `init_mem` itself (at its first call, or as a forked child) and that
-- gets its signal handler and its data file of DATA_SIZE bytes, has the invariant afterwards, with every
-- page unused; the data file has that length, and each freelist starts to be carved 2^28 - 8 pages or
-- more before its end.
pub init_mem-Inv :
    (k : System) (s : Process) (fd : ℕ) (v1 v2 v3 : Vm)
    → IsLawful k
    → s.par_ps ≢ k.getpid s.vm
    → s.g_m ≡ false
    → s.g_big_obj_m ≡ false
    → k.sigaction s.vm ≡ (true, v1)
    → k.mkstemp v1 ≡ (some fd, v2)
    → fd ≢ 0
    → k.ftruncate fd data_size v2 ≡ (true, v3)
    → Ensures ⊥
        (λ _ s'.
          Inv nobody no_objects s'
          × (s'.par_ps ≡ k.getpid s.vm)
          × (s'.num_mappings ≡ 0)
          × (s'.vm.file_length s'.data_fd ≡ data_size)
          × HasPages 0xFFFFFF8 s')
        (init_mem k s)
unfolding init_mem start freelist_init
init_mem-Inv k s fd v1 v2 v3 law child m m' handled made ne sized =
    let again : (s.par_ps == k.getpid s.vm) ≡ false = ground arith in
    let len : v3.file_length fd ≡ data_size = law.ftruncate-ok fd data_size v2 sized in
    rw (again, handled, made, sized)
      (returns (
        record {
          layout = record {
            ready = ne;
            high_aligned = omega arith;
            high_above = omega arith;
            high_below = omega arith;
            next_aligned = omega arith;
            next_above = omega arith;
            slots = (init_from-IsInitial s.g_flsts).slots;
            chains = (init_from-IsInitial s.g_flsts).empty;
            holds = λ p. tt;
            unused_small = λ p lo hi. refl;
            unused_big = λ p lo. refl;
            whole = λ p f n e. absurd (cc);
          };
          g_m_free = m;
          g_big_obj_m_free = m';
        },
        refl,
        refl,
        len,
        λ b small. rw len (ground (arith, first_pages s.g_flsts b small)),
      ))
