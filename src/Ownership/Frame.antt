-- ===== src/Ownership/Frame.antt =====
-- What holds of a page depends on its own bytes and mapping, so a change of another page keeps it.
use mathlib.Core.Path.{subst}
use nuaf.Prelude.{ℕ, ◌+◌, ◌*◌, ◌%◌, ◌≤◌, ◌<◌, ◌≡◌, ◌≢◌, refl, sym, ◌∙◌, List, [], ◌∷◌, arith}
use nuaf.Prelude.Powers.{below_eight}
use nuaf.Freelist.{block_size}
use nuaf.Memory.{Vm, page, read}
use nuaf.Memory.Bytes.{read_ext}
use nuaf.System.{SamePage}
use nuaf.Ownership.{idle, Own, IsObject, IsBig, Apart, Chain}

-- A load inside a page that is the same reads the same.
pub read_same :
    (w a p : ℕ) {vm wm : Vm}
    → SamePage p vm wm
    → page a ≡ p
    → a % 4096 + w ≤ 4096
    → read w a wm ≡ read w a vm
read_same w a p {vm} {wm} same e h = read_ext w a vm wm λ c lo hi. same.bytes c (omega arith)

pub IsObject-frame :
    {vm wm : Vm} {p a b : ℕ} → SamePage p vm wm → IsObject vm p a b → IsObject wm p a b
IsObject-frame {p} same o = record {
  above = o.above;
  below = o.below;
  page_of = o.page_of;
  block_type = o.block_type;
  behind_header = o.behind_header;
  on_grid = o.on_grid;
  in_page = o.in_page;
  mapped = same.mapped ∙ o.mapped;
  header = read_same 4 (p * 4096) p same (omega arith) (omega arith) ∙ o.header;
}

-- A large object's page also depends on the first page of the object.
pub IsBig-frame :
    {vm wm : Vm} {p f n : ℕ} → SamePage f vm wm → SamePage p vm wm → IsBig vm p f n → IsBig wm p f n
IsBig-frame {p} {f} first same o = record {
  above = o.above;
  room = o.room;
  within = o.within;
  mapped = same.mapped ∙ o.mapped;
  magic = read_same 8 (f * 4096) f first (omega arith) (omega arith) ∙ o.magic;
  count = read_same 8 (f * 4096 + 8) f first (omega arith) (omega arith) ∙ o.count;
  rest = λ ne e. o.rest ne (sym (read_same 8 (p * 4096) p same (omega arith) (omega arith)) ∙ e);
}

-- The objects of the eight types have 16 to 2048 bytes.
pub block_size_bounds : (b : ℕ) → b < 8 → (16 ≤ block_size b) × (block_size b ≤ 2048)
block_size_bounds =
    below_eight (λ b. (16 ≤ block_size b) × (block_size b ≤ 2048)) (omega arith) (omega arith)
      (omega arith) (omega arith) (omega arith) (omega arith) (omega arith) (omega arith)

-- The freelists are kept by a change of one page that they do not thread.
pub Chain-frame :
    {own own' : Own} {vm wm : Vm} (q : ℕ) (b top : ℕ) (xs : List ℕ)
    → ((p : ℕ) → p ≢ q → SamePage p vm wm)
    → ((p : ℕ) → p ≢ q → own' p ≡ own p)
    → ((p a : ℕ) → own p ≡ idle a b → IsObject vm p a b)
    → Apart q xs
    → Chain own vm b top xs
    → Chain own' wm b top xs
Chain-frame q b top [] same kept obj apart c = c
Chain-frame {own} {own'} {vm} {wm} q b top (a ∷ xs) same kept obj apart c =
    let ne : page a ≢ q = λ e. apart.0 (sym e) in
    let o : IsObject vm (page a) a b = obj (page a) a c.1 in
    (
      c.0,
      kept (page a) ne ∙ c.1,
      c.2,
      subst (λ t. Chain own' wm b t xs)
          (sym (
            read_same 8 a (page a) (same (page a) ne) refl
              (omega (arith, o.in_page, block_size_bounds b o.block_type))))
          (Chain-frame q b (read 8 a vm) xs same kept obj apart.1 c.3),
    )

-- A page that is not idle for `b` is apart from the freelist of `b`.
pub Apart-of :
    (own : Own) (vm : Vm) (q b top : ℕ) (xs : List ℕ)
    → ((a : ℕ) → own q ≢ idle a b)
    → Chain own vm b top xs
    → Apart q xs
Apart-of own vm q b top [] not_idle c = tt
Apart-of own vm q b top (a ∷ xs) not_idle c = (
  λ e. not_idle a (subst (λ t. own t ≡ idle a b) (sym e) c.1),
  Apart-of own vm q b (read 8 a vm) xs not_idle c.3,
)

-- The freelists are kept by a change that keeps every idle page.
pub Chain-keep :
    {own own' : Own} {vm wm : Vm} (b top : ℕ) (xs : List ℕ)
    → ((p a : ℕ) → own p ≡ idle a b → (own' p ≡ own p) × SamePage p vm wm × IsObject vm p a b)
    → Chain own vm b top xs
    → Chain own' wm b top xs
Chain-keep b top [] keep c = c
Chain-keep {own} {own'} {vm} {wm} b top (a ∷ xs) keep c =
    let (kept, same, o) = keep (page a) a c.1 in
    (
      c.0,
      kept ∙ c.1,
      c.2,
      subst (λ t. Chain own' wm b t xs)
          (sym (
            read_same 8 a (page a) same refl
              (omega (arith, o.in_page, block_size_bounds b o.block_type))))
          (Chain-keep b (read 8 a vm) xs keep c.3),
    )
