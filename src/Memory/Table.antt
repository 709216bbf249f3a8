-- ===== src/Memory/Table.antt =====
-- The page table that `setup_page_table` of memory.c, Operating System/p5-Virtual Memory, makes.
use mathlib.Core.Path.{subst}
use ucas_coursework.Prelude.{
  ℕ, zero, suc, ◌+◌, ◌*◌, ◌/◌, ◌%◌, ◌^◌, ◌≤◌, ◌<◌, ◌≡◌, ◌≢◌, refl, sym, ap, ◌∙◌, ◌⊎◌, inl, inr,
  arith, Bool-cases, some, on_some, List, [], ◌∷◌, length, ◌==◌, ==_ne, ==_iff, All-mono,
}
use ucas_coursework.Memory.{Vm, load_pairs}
use ucas_coursework.Memory.Words.{entryhi_lem}
use ucas_coursework.Memory.Copy.{Outside}
use ucas_coursework.Memory.Pages.{used, taken, free, used-taken, used-taken_other, taken-IsLaid}
use ucas_coursework.Memory.Load.{va, IsImage, page-Outside, image-Outside}
use ucas_coursework.Memory.Entry.{Beside, IsReady, Pairs}
use ucas_coursework.Memory.Pair.{load_pair-Pairs}
use ucas_coursework.Memory.Loaded.{
  Loaded, IsFresh, OutsideAll, Done, Maps-mono, Loaded-source, page-OutsideAll, fresh-not_in,
}

module _ (pt j pid v loc f g : ℕ) (vm vm₁ : Vm) (ready : IsReady pt j v vm)
    (p : Pairs pid v loc (va pt + 16 * j) f g vm vm₁) where
  f_ne : f ≢ pt
  f_ne e = absurd (omega (arith, ready.pt_used, p.f_unused, ap (λ i. used i vm.page_map) e))

  g_ne : g ≢ pt
  g_ne e = absurd (omega (arith, ready.pt_used, p.g_unused, ap (λ i. used i vm.page_map) e))

  size_f : length (taken 0 f vm.page_map) ≡ 256
  size_f = (taken-IsLaid 0 f vm.page_map ready.laid).size

  -- What is used stays used, and the two pages are.
  used_g : used g vm₁.page_map ≡ 1
  used_g =
      ap (used g) p.map_is ∙ used-taken 0 g (taken 0 f vm.page_map) (omega (arith, size_f, p.g_lt))

  used_f : used f vm₁.page_map ≡ 1
  used_f =
      ap (used f) p.map_is
      ∙ used-taken_other 0 g f (taken 0 f vm.page_map) (λ e. p.differ (sym e))
      ∙ used-taken 0 f vm.page_map (omega (arith, ready.laid.size, p.f_lt))

  used_other : (i : ℕ) → i ≢ f → i ≢ g → used i vm₁.page_map ≡ used i vm.page_map
  used_other i n m =
      ap (used i) p.map_is
      ∙ used-taken_other 0 g i (taken 0 f vm.page_map) (λ e. m (sym e))
      ∙ used-taken_other 0 f i vm.page_map (λ e. n (sym e))

  used_pt : used pt vm₁.page_map ≡ 1
  used_pt = used_other pt (λ e. f_ne (sym e)) (λ e. g_ne (sym e)) ∙ ready.pt_used

  IsFresh-before : (i : ℕ) → IsFresh vm₁ i → IsFresh vm i
  IsFresh-before i (h, u) =
      let n : i ≢ f = λ e. absurd (omega (arith, u, used_f, ap (λ k. used k vm₁.page_map) e)) in
      let m : i ≢ g = λ e. absurd (omega (arith, u, used_g, ap (λ k. used k vm₁.page_map) e)) in
      (h, sym (used_other i n m) ∙ u)

  earlier : (k : ℕ) → k < j → vm₁.mem (va pt + 16 * k + 8) ≡ vm.mem (va pt + 16 * k + 8)
  earlier k h =
      p.others (va pt + 16 * k + 8) (inl (omega arith)) (in_table f f_ne) (in_table g g_ne)
    where
      in_table : (i : ℕ) → i ≢ pt → Outside 1024 (va i) (va pt + 16 * k + 8)
      in_table i n =
          let e : va pt + 16 * k + 8 ≡ va pt + (16 * k + 8) = omega arith in
          rw e (page-Outside i pt (16 * k + 8) n (omega (arith, h, ready.slot)))

  next-IsReady : v < 2 ^ 19 → pid < 2 ^ 12 → suc j < 256 → IsReady pt (suc j) (v + 1) vm₁
  next-IsReady v_lt pid_lt slot = record {
    laid = rw p.map_is (taken-IsLaid 0 g _ (taken-IsLaid 0 f vm.page_map ready.laid));
    page = ready.page;
    pt_used = used_pt;
    slot = slot;
    before = λ k h. elim (Bool-cases (k == j)) [
      | inl last ↦
          let e : k ≡ j = (==_iff k j).0 last in
          omega (
            arith,
            ap (λ i. vm₁.mem (va pt + 16 * i + 8) / 2 ^ 13) e,
            ap (λ x. x / 2 ^ 13) p.maps.entryhi,
            (entryhi_lem v pid v_lt pid_lt).0,
          )
      | inr more ↦
          let n : k ≢ j = λ e. absurd (cc ((==_iff k j).1 e, more)) in
          let h' : k < j = omega (arith, n, h) in omega (arith, earlier k h', ready.before k h')
    ];
  }

  -- The round and those behind it
  join-Done :
      (n : ℕ) (frames : List ℕ) (vm' : Vm)
      → suc j + n ≤ 256
      → IsImage (2048 * suc n) loc
      → Done pid n (va pt + 16 * suc j) (v + 1) (loc + 8192) frames vm₁ vm'
      → Done pid (suc n) (va pt + 16 * j) v loc (f ∷ g ∷ frames) vm vm'
  join-Done n frames vm' slots image d = record {
    laid = d.laid;
    loaded = (
      Maps-mono pid v loc f g (va pt + 16 * j) vm.mem vm₁.mem vm'.mem entry_kept
          (frame_kept f f_ne used_f) (frame_kept g g_ne used_g) p.maps,
      Loaded-source pid n (va pt + 16 * j + 16) (v + 1) (loc + 8192) frames vm₁.mem vm.mem vm'.mem
          source_kept loaded_here,
    );
    fresh = (
      (p.f_lt, p.f_unused),
      ((p.g_lt, p.g_unused), All-mono (IsFresh vm₁) (IsFresh vm) frames IsFresh-before d.fresh),
    );
    distinct = (
      rw (==_ne f g p.differ) (fresh-not_in vm₁ f frames used_f d.fresh),
      (fresh-not_in vm₁ g frames used_g d.fresh, d.distinct),
    );
    others = λ a b (o : OutsideAll a (f ∷ g ∷ frames)).
        d.others a (behind_next a b) o.1.1 ∙ p.others a (beside_first a b) o.0 o.1.0;
  }
    where
      next_entry : va pt + 16 * suc j ≡ va pt + 16 * j + 16
      next_entry = omega arith

      loaded_here : Loaded pid n (va pt + 16 * j + 16) (v + 1) (loc + 8192) frames vm₁.mem vm'.mem
      loaded_here = rw next_entry at d.loaded

      entry_kept : (x : ℕ) → x < 16 → vm'.mem (va pt + 16 * j + x) ≡ vm₁.mem (va pt + 16 * j + x)
      entry_kept x h = d.others (va pt + 16 * j + x) (inl (omega arith)) (
          let e : va pt + 16 * j + x ≡ va pt + (16 * j + x) = omega arith in
          rw e
            (page-OutsideAll vm₁ pt (16 * j + x) frames used_pt (omega (arith, h, slots)) d.fresh))

      frame_kept :
          (i : ℕ)
          → i ≢ pt
          → used i vm₁.page_map ≡ 1
          → (w : ℕ) → w < 1024
          → vm'.mem (va i + 4 * w) ≡ vm₁.mem (va i + 4 * w)
      frame_kept i ne u w h =
          d.others (va i + 4 * w)
            (out_of_table (page-Outside pt i (4 * w) (λ e. ne (sym e)) (omega arith)))
            (page-OutsideAll vm₁ i (4 * w) frames u (omega arith) d.fresh)
        where
          out_of_table :
              Outside 1024 (va pt) (va i + 4 * w)
              → (va i + 4 * w < va pt + 16 * suc j) ⊎ (va pt + 16 * suc j + 16 * n ≤ va i + 4 * w)
          out_of_table (inl below) = inl (omega arith)
          out_of_table (inr above) = inr (omega (arith, above, slots))

      image_beside :
          IsImage (2048 * suc n) loc
          → (x : ℕ) → x < 8192 * suc n
          → Beside (va pt + 16 * j) (loc + x)
      image_beside (inl below) x h = inl (omega arith)
      image_beside (inr above) x h = inr (omega (arith, above, ready.page, ready.slot))

      source_kept : (x : ℕ) → x < 8192 * n → vm₁.mem (loc + 8192 + x) ≡ vm.mem (loc + 8192 + x)
      source_kept x h =
          let e : loc + 8192 + x ≡ loc + (8192 + x) = omega arith in
          rw e (
            p.others (loc + (8192 + x)) (image_beside image (8192 + x) (omega arith))
              (image-Outside (2048 * suc n) loc f (8192 + x) image p.f_lt (omega arith))
              (image-Outside (2048 * suc n) loc g (8192 + x) image p.g_lt (omega arith)))

      behind_next :
          (a : ℕ)
          → (a < va pt + 16 * j) ⊎ (va pt + 16 * j + 16 * suc n ≤ a)
          → (a < va pt + 16 * suc j) ⊎ (va pt + 16 * suc j + 16 * n ≤ a)
      behind_next a (inl below) = inl (omega arith)
      behind_next a (inr above) = inr (omega (arith, above))

      beside_first :
          (a : ℕ)
          → (a < va pt + 16 * j) ⊎ (va pt + 16 * j + 16 * suc n ≤ a)
          → Beside (va pt + 16 * j) a
      beside_first a (inl below) = inl below
      beside_first a (inr above) = inr (omega (arith, above))

smaller-IsImage : (n loc : ℕ) → IsImage (2048 * suc n) loc → IsImage (2048 * n) (loc + 8192)
smaller-IsImage n loc (inl below) = inl (omega arith)
smaller-IsImage n loc (inr above) = inr (omega arith)

first-IsImage : (n loc : ℕ) → IsImage (2048 * suc n) loc → IsImage 2048 loc
first-IsImage n loc (inl below) = inl (omega arith)
first-IsImage n loc (inr above) = inr (omega arith)

pub load_pairs-Done :
    (n pt j pid vaddr loc : ℕ) (vm : Vm)
    → IsReady pt j (vaddr / 2 ^ 13) vm
    → 2 * n ≤ free vm.page_map
    → suc j + n ≤ 256
    → IsImage (2048 * n) loc
    → vaddr + 8192 * n ≤ 2 ^ 31
    → pid < 2 ^ 12
    → (frames : List ℕ) × (vm' : Vm) × (load_pairs n (va pt) pid vaddr (va pt + 16 * j) loc vm
        ≡ some vm')
      × Done pid n (va pt + 16 * j) (vaddr / 2 ^ 13) loc frames vm vm'
unfolding load_pairs
load_pairs-Done zero pt j pid vaddr loc vm ready room slots image v_lt pid_lt = (
  [],
  vm,
  refl,
  record { laid = ready.laid; loaded = tt; fresh = tt; distinct = tt; others = λ a b o. refl },
)
load_pairs-Done (suc n) pt j pid vaddr loc vm ready room slots image v_lt pid_lt =
    let v : ℕ = vaddr / 2 ^ 13 in
    let (f, g, vm₁, e, p) =
      load_pair-Pairs pt j pid vaddr loc vm ready (omega arith) (first-IsImage n loc image)
        (omega arith) pid_lt in
    let wrap : (vaddr + 8192) % 2 ^ 32 ≡ vaddr + 8192 = omega arith in
    let next_vpn : (vaddr + 8192) / 2 ^ 13 ≡ v + 1 = omega arith in
    let ready₁ : IsReady pt (suc j) ((vaddr + 8192) / 2 ^ 13) vm₁ =
      rw next_vpn
        (next-IsReady pt j pid v loc f g vm vm₁ ready p (omega arith) pid_lt (omega arith)) in
    let (frames, vm', e', d) =
      load_pairs-Done n pt (suc j) pid (vaddr + 8192) (loc + 8192) vm₁ ready₁
        (omega (arith, p.left)) (omega arith) (smaller-IsImage n loc image) (omega arith) pid_lt in
    let next_entry : va pt + 16 * j + 16 ≡ va pt + 16 * suc j = omega arith in
    (
      f ∷ g ∷ frames,
      vm',
      ap
            (on_some (
              load_pairs n (va pt) pid ((vaddr + 8192) % 2 ^ 32) (va pt + 16 * j + 16)
                (loc + 8192)))
            e
          ∙ ap (λ w. load_pairs n (va pt) pid w (va pt + 16 * j + 16) (loc + 8192) vm₁) wrap
          ∙ ap (λ t. load_pairs n (va pt) pid (vaddr + 8192) t (loc + 8192) vm₁) next_entry
          ∙ e',
      join-Done pt j pid v loc f g vm vm₁ ready p n frames vm' (omega arith) image
          (subst (λ u. Done pid n (va pt + 16 * suc j) u (loc + 8192) frames vm₁ vm') next_vpn d),
    )
