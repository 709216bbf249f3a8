-- ===== src/Memory/Loaded.antt =====
-- What a page table of memory.c, Operating System/p5-Virtual Memory, maps, and what keeps it.
use ucas_coursework.Prelude.{
  ℕ, zero, suc, ◌+◌, ◌*◌, ◌≤◌, ◌<◌, ◌≡◌, refl, ap, ◌∙◌, ◌⊎◌, arith, List, [], ◌∷◌, ==_ne, All,
  All-mono, Distinct, ◌∉◌,
}
use ucas_coursework.Memory.{Vm}
use ucas_coursework.Memory.Copy.{Outside}
use ucas_coursework.Memory.Pages.{used, IsLaid}
use ucas_coursework.Memory.Load.{va, IsImage, page-Outside, image-Outside}
use ucas_coursework.Memory.Entry.{Maps}

-- The `n` entries from `t` on map two pages each, from the page number `2 * vpn` on, to the pages of the
-- list, in order.
abbrev pub Loaded : ℕ → ℕ → ℕ → ℕ → ℕ → List ℕ → (ℕ → ℕ) → (ℕ → ℕ) → Type 0
Loaded pid zero t vpn loc [] source mem = Unit {0}
Loaded pid zero t vpn loc (f ∷ frames) source mem = ⊥
Loaded pid (suc n) t vpn loc [] source mem = ⊥
Loaded pid (suc n) t vpn loc (f ∷ []) source mem = ⊥
Loaded pid (suc n) t vpn loc (f ∷ g ∷ frames) source mem =
    Maps pid vpn loc f g t source mem
    × Loaded pid n (t + 16) (vpn + 1) (loc + 8192) frames source mem

abbrev pub IsFresh : Vm → ℕ → Type 0
IsFresh vm f = (f < 256) × (used f vm.page_map ≡ 0)

abbrev pub OutsideAll : ℕ → List ℕ → Type 0
OutsideAll a frames = All (λ f. Outside 1024 (va f) a) frames

-- The pages were not used and are all different, and only they and the entries are written.
pub record Done (pid n t vpn loc : ℕ) (frames : List ℕ) (vm vm' : Vm) : Type 0 where
  pub laid : IsLaid vm'.page_map
  pub loaded : Loaded pid n t vpn loc frames vm.mem vm'.mem
  pub fresh : All (IsFresh vm) frames
  pub distinct : Distinct frames
  pub others : (a : ℕ) → (a < t) ⊎ (t + 16 * n ≤ a) → OutsideAll a frames → vm'.mem a ≡ vm.mem a

pub Maps-mono :
    (pid vpn loc f g t : ℕ) (source mem mem' : ℕ → ℕ)
    → ((x : ℕ) → x < 16 → mem' (t + x) ≡ mem (t + x))
    → ((w : ℕ) → w < 1024 → mem' (va f + 4 * w) ≡ mem (va f + 4 * w))
    → ((w : ℕ) → w < 1024 → mem' (va g + 4 * w) ≡ mem (va g + 4 * w))
    → Maps pid vpn loc f g t source mem
    → Maps pid vpn loc f g t source mem'
Maps-mono pid vpn loc f g t source mem mem' entry even odd m = record {
  entrylo_0 = ap mem' (omega arith) ∙ entry 0 (omega arith) ∙ ap mem (omega arith) ∙ m.entrylo_0;
  entrylo_1 = entry 4 (omega arith) ∙ m.entrylo_1;
  entryhi = entry 8 (omega arith) ∙ m.entryhi;
  daddr = entry 12 (omega arith) ∙ m.daddr;
  even = λ w h. even w h ∙ m.even w h;
  odd = λ w h. odd w h ∙ m.odd w h;
}

pub Loaded-source :
    (pid n t vpn loc : ℕ) (frames : List ℕ) (source source' mem : ℕ → ℕ)
    → ((x : ℕ) → x < 8192 * n → source (loc + x) ≡ source' (loc + x))
    → Loaded pid n t vpn loc frames source mem
    → Loaded pid n t vpn loc frames source' mem
Loaded-source pid zero t vpn loc [] source source' mem same h = tt
Loaded-source pid zero t vpn loc (f ∷ frames) source source' mem same h = absurd h
Loaded-source pid (suc n) t vpn loc [] source source' mem same h = absurd h
Loaded-source pid (suc n) t vpn loc (f ∷ []) source source' mem same h = absurd h
Loaded-source pid (suc n) t vpn loc (f ∷ g ∷ frames) source source' mem same (m, rest) = (
  record {
    entrylo_0 = m.entrylo_0;
    entrylo_1 = m.entrylo_1;
    entryhi = m.entryhi;
    daddr = m.daddr;
    even = λ w h. m.even w h ∙ same (4 * w) (omega arith);
    odd = λ w h.
        m.odd w h
        ∙ ap source (omega arith)
        ∙ same (4096 + 4 * w) (omega arith)
        ∙ ap source' (omega arith);
  },
  Loaded-source pid n (t + 16) (vpn + 1) (loc + 8192) frames source source' mem
      (λ x h. ap source (omega arith) ∙ same (8192 + x) (omega arith) ∙ ap source' (omega arith))
      rest,
)

-- A page that is in none of the list has no word in them.
pub page-OutsideAll :
    (vm : Vm) (p x : ℕ) (frames : List ℕ)
    → (used p vm.page_map ≡ 1)
    → x < 4096
    → All (IsFresh vm) frames
    → OutsideAll (va p + x) frames
page-OutsideAll vm p x frames u h fresh =
    All-mono (IsFresh vm) (λ f. Outside 1024 (va f) (va p + x)) frames
      (λ f k.
        page-Outside f p x (λ e. absurd (omega (arith, u, k.1, ap (λ i. used i vm.page_map) e))) h)
      fresh

pub image-OutsideAll :
    (vm : Vm) (words loc x : ℕ) (frames : List ℕ)
    → IsImage words loc
    → x < 4 * words
    → All (IsFresh vm) frames
    → OutsideAll (loc + x) frames
image-OutsideAll vm words loc x frames image h fresh =
    All-mono (IsFresh vm) (λ f. Outside 1024 (va f) (loc + x)) frames
      (λ f k. image-Outside words loc f x image k.0 h) fresh

pub fresh-not_in :
    (vm : Vm) (p : ℕ) (frames : List ℕ)
    → used p vm.page_map ≡ 1
    → All (IsFresh vm) frames
    → p ∉ frames
fresh-not_in vm p [] u h = refl
fresh-not_in vm p (f ∷ frames) u h =
    let differs =
      ==_ne p f (λ e. absurd (omega (arith, u, h.0.1, ap (λ i. used i vm.page_map) e))) in
    rw differs (fresh-not_in vm p frames u h.1)
