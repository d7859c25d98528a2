-- ===== src/Safety/Carve.antt =====
-- `freelist_pop` with an empty freelist: a fresh page for a fresh object.
use native.Mathlib.Decide.{ℕ_discrete}
use nuaf.Prelude.{
  ℕ, ◌+◌, ◌*◌, ◌%◌, ◌≤◌, ◌<◌, ◌≡◌, refl, sym, ◌∙◌, ap, true, false, List, Option, some, none, arith,
  ◌==◌,
}
use nuaf.Memory.{Vm, page}
use nuaf.Words.{add_size, round_down}
use nuaf.System.{System, IsLawful, SamePage, FileMapped, SamePage-trans}
use nuaf.Process.{Process, ok, segv, exit}
use nuaf.Process.Access.{load_fault}
use nuaf.Freelist.{set_flst, next_canonical, mark, carve_at, carve}
use nuaf.Freelist.Carving.{IsSlot, next_canonical-IsSlot}
use nuaf.Freelist.Mark.{Marked, mark_lem}
use nuaf.Ownership.{unused, live, Own, assign, IsObject, Chain, Layout}
use nuaf.Ownership.Frame.{Apart-of}
use nuaf.Safety.Files.{IsSteady}
use nuaf.Safety.Assign.{assign_ne, Holds-assign, whole-assign, Chain-assign}

-- The state after an object of block type `b` was carved, with the address space `wm`.
abbrev pub carved : Process → ℕ → Vm → Process
carved s b wm = record s {
  vm = wm;
  num_mappings = add_size s.num_mappings 1;
  high_vaddr = add_size s.high_vaddr 4096;
  g_flsts = set_flst s.g_flsts b (record (s.g_flsts b) {
    high_canonical_addr = next_canonical b (s.g_flsts b).high_canonical_addr;
  });
}

abbrev pub carved_object : Process → ℕ → ℕ
carved_object s b = s.high_vaddr + (s.g_flsts b).high_canonical_addr % 4096

carve_at_lem :
    (p b : ℕ) (s : Process)
    → s.high_vaddr ≡ p * 4096
    → b < 8
    → s.vm.mapped p ≡ true
    → (wm : Vm) × (carve_at b (p * 4096) s ≡ ok (carved_object s b) (carved s b wm))
      × Marked p b s.vm wm
unfolding carve_at
carve_at_lem p b s at small m =
    let s' = record s { num_mappings = add_size s.num_mappings 1 } in
    let (wm, run, marked) = mark_lem p b s' small m in
    (
      wm,
      rw run (
          ap (λ (v : ℕ). ok (v + (s.g_flsts b).high_canonical_addr % 4096) (carved s b wm))
            (sym at)),
      marked,
    )

-- What mmap and the mark leave behind, together.
Marked-trans :
    {p b fd offset a : ℕ} {vm um wm : Vm}
    → FileMapped p fd offset vm a um
    → Marked p b um wm
    → Marked p b vm wm
Marked-trans {p} {vm} {um} {wm} m k = record {
  mapped = k.mapped;
  header = k.header;
  others = λ q ne.
      let before : SamePage q vm um = m.others q ne in
      let after = k.others q ne in SamePage-trans before after;
  files = k.files ∙ m.files;
}

module _ {k : System} (law : IsLawful k) {own : Own} {free : ℕ → List ℕ} {s : Process}
    (inv : Layout own free s) (b : ℕ) (small : b < 8) where
  -- The call of mmap.
  abbrev pub file_map : Option ℕ × Vm
  file_map =
      k.mmap_file s.high_vaddr 4096 s.data_fd (round_down (s.g_flsts b).high_canonical_addr 4096)
        s.vm

  carve_mapped :
      {a : ℕ} {um : Vm}
      → file_map ≡ (some a, um)
      → (a == 0) ≡ false
      → carve k b s ≡ carve_at b a (record s { vm = um })
  unfolding carve
  carve_mapped e ne = rw (e, ne) refl

  file_Mapped :
      {a : ℕ} {um : Vm}
      → file_map ≡ (some a, um)
      → FileMapped
          (page s.high_vaddr)
          s.data_fd
          (round_down (s.g_flsts b).high_canonical_addr 4096)
          s.vm
          a
          um
  file_Mapped e =
      let p : ℕ = page s.high_vaddr in
      let at : s.high_vaddr ≡ p * 4096 = omega (arith, inv.high_aligned) in
      law.mmap_file-ok p s.data_fd (round_down (s.g_flsts b).high_canonical_addr 4096) s.vm
        (rw (← at) e)

  -- Past the end of the data file the header of the new page cannot be read.
  pub carve_fault :
      {a : ℕ} {um : Vm}
      → file_map ≡ (some a, um)
      → s.vm.file_length s.data_fd ≤ round_down (s.g_flsts b).high_canonical_addr 4096
      → carve k b s ≡ segv (page s.high_vaddr * 4096)
  unfolding carve_at mark
  carve_fault {a} {um} e past =
      let p : ℕ = page s.high_vaddr in
      let m = file_Mapped e in
      let placed : a ≡ p * 4096 = m.placed in
      let ne : (a == 0) ≡ false = ground (arith, inv.high_above) in
      let s' = record s { vm = um; num_mappings = add_size s.num_mappings 1 } in
      let fault =
        load_fault 4 (p * 4096) p s' (omega arith) (omega arith) (omega arith) (m.past_end past) in
      carve_mapped e ne ∙ ap (λ v. carve_at b v (record s { vm = um })) placed ∙ rw fault refl

  pub carve_ok :
      {a : ℕ} {um : Vm}
      → file_map ≡ (some a, um)
      → round_down (s.g_flsts b).high_canonical_addr 4096 < s.vm.file_length s.data_fd
      → (wm : Vm) × (carve k b s ≡ ok (carved_object s b) (carved s b wm))
        × Marked (page s.high_vaddr) b s.vm wm
  carve_ok {a} {um} e backed =
      let p : ℕ = page s.high_vaddr in
      let at : s.high_vaddr ≡ p * 4096 = omega (arith, inv.high_aligned) in
      let m = file_Mapped e in
      let placed : a ≡ p * 4096 = m.placed in
      let ne : (a == 0) ≡ false = ground (arith, inv.high_above) in
      let (wm, run, marked) = carve_at_lem p b (record s { vm = um }) at small (m.inside backed) in
      (
        wm,
        carve_mapped e ne ∙ ap (λ v. carve_at b v (record s { vm = um })) placed ∙ run,
        Marked-trans m marked,
      )

  pub carve_refused : {um : Vm} → file_map ≡ (none, um) → carve k b s ≡ exit 1
  unfolding carve
  carve_refused e = rw e refl

-- The carved object's page is fresh, and the invariant holds with the program owning it.
module _ {own : Own} {free : ℕ → List ℕ} {s : Process} (inv : Layout own free s) (b : ℕ)
    (small : b < 8) (room : s.high_vaddr < 0xFFFF000000) where
  abbrev carved_page : ℕ
  carved_page = page s.high_vaddr

  pub page-carved_object : page (carved_object s b) ≡ carved_page
  page-carved_object = omega (arith, inv.high_aligned)

  pub carved_page-unused : own carved_page ≡ unused
  carved_page-unused = inv.unused_small carved_page (omega arith) (omega arith)

  carved-IsObject :
      {wm : Vm} → Marked carved_page b s.vm wm → IsObject wm carved_page (carved_object s b) b
  carved-IsObject marked =
      let slot : IsSlot b (s.g_flsts b).high_canonical_addr = inv.slots b small in
      let same : carved_object s b % 4096 ≡ (s.g_flsts b).high_canonical_addr % 4096 =
        omega (arith, inv.high_aligned) in
      record {
        above = omega (arith, inv.high_above);
        below = omega arith;
        page_of = page-carved_object;
        block_type = small;
        behind_header = omega (arith, slot.behind_header);
        on_grid = rw same slot.on_grid;
        in_page = rw same slot.in_page;
        mapped = marked.mapped;
        header = marked.header;
      }

  carved-slots :
      (wm : Vm) (c : ℕ) → c < 8 → IsSlot c ((carved s b wm).g_flsts c).high_canonical_addr
  carved-slots wm c h = elim (ℕ_discrete c b) [
    | yes e ↦
        let same : (c == b) ≡ true = ground arith in
        rw (same, e)
          (next_canonical-IsSlot b small (s.g_flsts b).high_canonical_addr (inv.slots b small)).0
    | no ne ↦ let other : (c == b) ≡ false = ground arith in rw other (inv.slots c h)
  ]

  carved-chains :
      {wm : Vm} (o : ℕ)
      → Marked carved_page b s.vm wm
      → (c : ℕ) → c < 8
      → Chain
          (assign own carved_page (live o b))
          wm
          c
          ((carved s b wm).g_flsts c).top_of_stack
          (free c)
  carved-chains {wm} o marked c h = rw (top_kept c) (
      Chain-assign inv carved_page (live o b) (omega arith) marked.others c
        (s.g_flsts c).top_of_stack (free c)
        (Apart-of own s.vm carved_page c (s.g_flsts c).top_of_stack (free c)
          (λ a e. absurd (cc carved_page-unused)) (inv.chains c h))
        (inv.chains c h))
    where
      top_kept : (c : ℕ) → ((carved s b wm).g_flsts c).top_of_stack ≡ (s.g_flsts c).top_of_stack
      top_kept c = ground arith

  pub carved-IsSteady : {wm : Vm} → Marked carved_page b s.vm wm → IsSteady 8 s (carved s b wm)
  carved-IsSteady {wm} marked = record {
    same_file = refl;
    files = marked.files;
    carved = λ c h. elim (ℕ_discrete c b) [
      | yes e ↦
          let same : (c == b) ≡ true = ground arith in
          let step =
            (next_canonical-IsSlot b small (s.g_flsts b).high_canonical_addr
              (inv.slots b small)).2 in
          rw (same, e) (omega (arith, step))
      | no ne ↦ let other : (c == b) ≡ false = ground arith in rw other (omega arith)
    ];
  }

  pub carved-Layout :
      {wm : Vm}
      → Marked carved_page b s.vm wm
      → Layout (assign own carved_page (live (carved_object s b) b)) free (carved s b wm)
  carved-Layout {wm} marked =
      let st = live (carved_object s b) b in
      record {
        ready = inv.ready;
        high_aligned = omega (arith, inv.high_aligned);
        high_above = omega (arith, inv.high_above);
        high_below = omega (arith, inv.high_aligned);
        next_aligned = inv.next_aligned;
        next_above = inv.next_above;
        slots = carved-slots wm;
        chains = carved-chains (carved_object s b) marked;
        holds =
            Holds-assign inv carved_page st (omega arith) marked.others (carved-IsObject marked);
        unused_small = λ p lo hi.
            assign_ne own carved_page st p (omega (arith, inv.high_aligned))
            ∙ inv.unused_small p (omega (arith, inv.high_aligned)) hi;
        unused_big = λ p lo.
            assign_ne own carved_page st p (omega (arith, inv.next_above)) ∙ inv.unused_big p lo;
        whole =
            whole-assign inv carved_page st (omega arith) marked.others (λ f n. λ e. absurd (cc));
      }
