-- ===== src/Memory/Pair.antt =====
-- A round of `setup_page_table` of memory.c, Operating System/p5-Virtual Memory: an entry of the table and its
-- two pages.
use Prim.Native.Nat.{bit_or}
use ucas_coursework.Prelude.{
  ℕ, ◌+◌, ◌*◌, ◌/◌, ◌^◌, ◌≤◌, ◌<◌, ◌≡◌, ◌≢◌, refl, sym, ap, ◌∙◌, inl, inr, arith, some, on_some,
  List,
}
use ucas_coursework.Memory.{PageEntry, Vm, create_pte, load_page, int_page, load_pair}
use ucas_coursework.Memory.Words.{entryhi_lem}
use ucas_coursework.Memory.Copy.{Outside}
use ucas_coursework.Memory.Pages.{used, taken, free, used-taken, used-taken_other, taken-IsLaid}
use ucas_coursework.Memory.Load.{
  va, frame_bits, IsImage, page-Outside, image-Outside, Loads, load_page-Loads,
}
use ucas_coursework.Memory.Entry.{Maps, Beside, Created, create_pte-Created, IsReady, Pairs}

regroup : (mem : ℕ → ℕ) (pt k x : ℕ) → mem (va pt + 16 * k + x) ≡ mem (va pt + (16 * k + x))
regroup mem pt k x = ap mem (omega arith)

not_used : (pt i : ℕ) (pages : List PageEntry) → used pt pages ≡ 1 → used i pages ≡ 0 → i ≢ pt
not_used pt i pages p u e = absurd (omega (arith, p, u, ap (λ k. used k pages) e))

first_half : (loc : ℕ) → IsImage 2048 loc → IsImage 1024 loc
first_half loc (inl below) = inl (omega arith)
first_half loc (inr above) = inr (omega arith)

second_half : (loc : ℕ) → IsImage 2048 loc → IsImage 1024 (loc + 4096)
second_half loc (inl below) = inl (omega arith)
second_half loc (inr above) = inr (omega arith)

beside : (t a x : ℕ) → Beside t a → x < 16 → a ≢ t + x
beside t a x (inl below) h e = absurd (omega (arith, e, h, below))
beside t a x (inr above) h e = absurd (omega (arith, e, h, above))

image-Beside :
    (pt j loc x : ℕ)
    → IsImage 2048 loc
    → pt < 256
    → j < 256
    → x < 8192
    → Beside (va pt + 16 * j) (loc + x)
image-Beside pt j loc x (inl below) p q h = inl (omega arith)
image-Beside pt j loc x (inr above) p q h = inr (omega arith)

-- The table keeps its words while a page is loaded, but for the one that is entered.
table_kept :
    (pt j loc flag i : ℕ) (vm vm' : Vm)
    → Loads (va pt + 16 * j) loc flag i vm vm'
    → i ≢ pt
    → (x : ℕ) → x < 4096
    → x ≢ 16 * j + 4 * flag
    → vm'.mem (va pt + x) ≡ vm.mem (va pt + x)
table_kept pt j loc flag i vm vm' l ne x h n =
    l.others (va pt + x) (λ q. absurd (omega (arith, q, n))) (page-Outside i pt x ne h)

-- The same at a word of an entry
entry_kept :
    (pt j loc flag i : ℕ) (vm vm' : Vm)
    → Loads (va pt + 16 * j) loc flag i vm vm'
    → i ≢ pt
    → (k x : ℕ) → k < 256
    → x < 16
    → 16 * k + x ≢ 16 * j + 4 * flag
    → vm'.mem (va pt + 16 * k + x) ≡ vm.mem (va pt + 16 * k + x)
entry_kept pt j loc flag i vm vm' l ne k x h b n =
    regroup vm'.mem pt k x
    ∙ table_kept pt j loc flag i vm vm' l ne (16 * k + x) (omega arith) n
    ∙ sym (regroup vm.mem pt k x)

module _ (pt j pid v loc : ℕ) (vm vm₀ : Vm) (ready : IsReady pt j v vm)
    (room : 2 ≤ free vm.page_map) (image : IsImage 2048 loc) (v_lt : v < 2 ^ 19)
    (pid_lt : pid < 2 ^ 12) (c : Created v pid (va pt + 16 * j) loc vm.mem vm₀.mem)
    (map₀ : vm₀.page_map ≡ vm.page_map) where
  hi₀ : vm₀.mem (va pt + 16 * j + 8) / 2 ^ 13 ≡ v
  hi₀ = ap (λ x. x / 2 ^ 13) c.hi ∙ (entryhi_lem v pid v_lt pid_lt).0

  before₀ : (k : ℕ) → k < j → vm₀.mem (va pt + 16 * k + 8) / 2 ^ 13 ≢ v
  before₀ k h q =
      absurd (omega (arith, q, c.others (va pt + 16 * k + 8) (inl (omega arith)), ready.before k h))

  first-Loads :
      (f : ℕ) × (vm₁ : Vm) × (load_page (va pt) v loc 0 vm₀ ≡ some vm₁)
      × Loads (va pt + 16 * j) loc 0 f vm₀ vm₁
  first-Loads =
      load_page-Loads pt j v loc 0 vm₀ (rw map₀ ready.laid) ready.page (rw map₀ ready.pt_used)
        (rw map₀ (omega arith)) ready.slot (omega arith) (first_half loc image) before₀ hi₀

  module _ (f : ℕ) (vm₁ : Vm) (l₁ : Loads (va pt + 16 * j) loc 0 f vm₀ vm₁) where
    map₁ : vm₁.page_map ≡ taken 0 f vm.page_map
    map₁ = l₁.map_is ∙ ap (taken 0 f) map₀

    f_unused : used f vm.page_map ≡ 0
    f_unused = ap (used f) (sym map₀) ∙ l₁.unused

    f_ne : f ≢ pt
    f_ne = not_used pt f vm.page_map ready.pt_used f_unused

    hi₁ : vm₁.mem (va pt + 16 * j + 8) / 2 ^ 13 ≡ v
    hi₁ =
        ap (λ x. x / 2 ^ 13)
          (entry_kept pt j loc 0 f vm₀ vm₁ l₁ f_ne j 8 ready.slot (omega arith)
            (λ q. absurd (omega (arith, q))))
        ∙ hi₀

    before₁ : (k : ℕ) → k < j → vm₁.mem (va pt + 16 * k + 8) / 2 ^ 13 ≢ v
    before₁ k h q = before₀ k h (
        ap (λ x. x / 2 ^ 13)
          (sym (
            entry_kept pt j loc 0 f vm₀ vm₁ l₁ f_ne k 8 (omega (arith, h, ready.slot)) (omega arith)
              (λ e. absurd (omega (arith, e, h)))))
        ∙ q)

    second-Loads :
        (g : ℕ) × (vm₂ : Vm) × (load_page (va pt) v (loc + 4096) 1 vm₁ ≡ some vm₂)
        × Loads (va pt + 16 * j) (loc + 4096) 1 g vm₁ vm₂
    second-Loads =
        load_page-Loads pt j v (loc + 4096) 1 vm₁
          (rw map₁ (taken-IsLaid 0 f vm.page_map ready.laid)) ready.page
          (ap (used pt) map₁ ∙ used-taken_other 0 f pt vm.page_map f_ne ∙ ready.pt_used)
          (omega (arith, l₁.left, ap free map₀, room)) ready.slot (omega arith)
          (second_half loc image) before₁ hi₁

    module _ (g : ℕ) (vm₂ : Vm) (l₂ : Loads (va pt + 16 * j) (loc + 4096) 1 g vm₁ vm₂) where
      f_ne_g : f ≢ g
      f_ne_g q = absurd (
          omega (
            arith,
            l₂.unused,
            ap (used g) map₁,
            ap (λ k. used k (taken 0 f vm.page_map)) q,
            used-taken 0 f vm.page_map (omega (arith, l₁.within, ready.laid.size)),
          ))

      g_unused : used g vm.page_map ≡ 0
      g_unused =
          sym (used-taken_other 0 f g vm.page_map f_ne_g) ∙ ap (used g) (sym map₁) ∙ l₂.unused

      g_ne : g ≢ pt
      g_ne = not_used pt g vm.page_map ready.pt_used g_unused

      -- A word of the entry that neither load enters
      kept :
          (x : ℕ)
          → x < 16
          → x ≢ 0
          → x ≢ 4
          → vm₂.mem (va pt + 16 * j + x) ≡ vm₀.mem (va pt + 16 * j + x)
      kept x h n m =
          entry_kept pt j (loc + 4096) 1 g vm₁ vm₂ l₂ g_ne j x ready.slot h
            (λ q. absurd (omega (arith, q, m)))
          ∙ entry_kept pt j loc 0 f vm₀ vm₁ l₁ f_ne j x ready.slot h
              (λ q. absurd (omega (arith, q, n)))

      both-Maps : Maps pid v loc f g (va pt + 16 * j) vm.mem vm₂.mem
      both-Maps = record {
        entrylo_0 =
            ap vm₂.mem (omega arith)
            ∙ entry_kept pt j (loc + 4096) 1 g vm₁ vm₂ l₂ g_ne j 0 ready.slot (omega arith)
                (λ q. absurd (omega (arith, q)))
            ∙ ap vm₁.mem (omega arith)
            ∙ l₁.entered
            ∙ ap (λ x. bit_or x (frame_bits f)) c.lo_0;
        entrylo_1 =
            l₂.entered
            ∙ ap (λ x. bit_or x (frame_bits g))
                (entry_kept pt j loc 0 f vm₀ vm₁ l₁ f_ne j 4 ready.slot (omega arith)
                    (λ q. absurd (omega (arith, q)))
                  ∙ c.lo_1);
        entryhi =
            kept 8 (omega arith) (λ q. absurd (omega (arith, q))) (λ q. absurd (omega (arith, q)))
            ∙ c.hi;
        daddr =
            kept 12 (omega arith) (λ q. absurd (omega (arith, q))) (λ q. absurd (omega (arith, q)))
            ∙ c.source;
        even = λ w h.
            l₂.others (va f + 4 * w) (frame_word w h)
              (page-Outside g f (4 * w) (λ q. f_ne_g (sym q)) (omega arith))
            ∙ l₁.filled w h
            ∙ c.others (loc + 4 * w)
                (image-Beside pt j loc (4 * w) image ready.page ready.slot (omega arith));
        odd = λ w h.
            l₂.filled w h
            ∙ l₁.others (loc + 4096 + 4 * w)
                (λ q.
                  beside (va pt + 16 * j) (loc + 4096 + 4 * w) 0 (image_beside w h) (omega arith)
                    (q ∙ omega arith))
                (image_outside w h)
            ∙ c.others (loc + 4096 + 4 * w) (image_beside w h);
      }
        where
          frame_word : (w : ℕ) → w < 1024 → va f + 4 * w ≢ va pt + 16 * j + 4 * 1
          frame_word w h e = absurd (omega (arith, e, f_ne, h, ready.slot))

          image_beside : (w : ℕ) → w < 1024 → Beside (va pt + 16 * j) (loc + 4096 + 4 * w)
          image_beside w h =
              let e : loc + 4096 + 4 * w ≡ loc + (4096 + 4 * w) = omega arith in
              rw e (image-Beside pt j loc (4096 + 4 * w) image ready.page ready.slot (omega arith))

          image_outside : (w : ℕ) → w < 1024 → Outside 1024 (va f) (loc + 4096 + 4 * w)
          image_outside w h =
              let e : loc + 4096 + 4 * w ≡ loc + (4096 + 4 * w) = omega arith in
              rw e (image-Outside 2048 loc f (4096 + 4 * w) image l₁.within (omega arith))

      both-Pairs : Pairs pid v loc (va pt + 16 * j) f g vm vm₂
      both-Pairs = record {
        f_lt = l₁.within;
        g_lt = l₂.within;
        f_unused = f_unused;
        g_unused = g_unused;
        differ = f_ne_g;
        map_is = l₂.map_is ∙ ap (taken 0 g) map₁;
        left = omega (arith, l₁.left, l₂.left, ap free map₀);
        maps = both-Maps;
        others = λ a b of og.
            l₂.others a (beside (va pt + 16 * j) a 4 b (omega arith)) og
            ∙ l₁.others a (λ q. beside (va pt + 16 * j) a 0 b (omega arith) (q ∙ omega arith)) of
            ∙ c.others a b;
      }

int_page_lem : (vaddr : ℕ) → vaddr < 2 ^ 31 → int_page vaddr ≡ vaddr / 2 ^ 13
unfolding int_page
int_page_lem vaddr small = ground arith

pub load_pair-Pairs :
    (pt j pid vaddr loc : ℕ) (vm : Vm)
    → IsReady pt j (vaddr / 2 ^ 13) vm
    → 2 ≤ free vm.page_map
    → IsImage 2048 loc
    → vaddr < 2 ^ 31
    → pid < 2 ^ 12
    → (f : ℕ) × (g : ℕ) × (vm' : Vm) × (load_pair (va pt) pid vaddr (va pt + 16 * j) loc vm
        ≡ some vm')
      × Pairs pid (vaddr / 2 ^ 13) loc (va pt + 16 * j) f g vm vm'
unfolding load_pair
load_pair-Pairs pt j pid vaddr loc vm ready room image small pid_lt =
    let v : ℕ = vaddr / 2 ^ 13 in
    let v_lt : v < 2 ^ 19 = omega arith in
    let vm₀ : Vm = record vm { mem = create_pte v pid (va pt + 16 * j) loc vm.mem } in
    let c = create_pte-Created v pid (va pt + 16 * j) loc vm.mem in
    let (f, vm₁, e₁, l₁) = first-Loads pt j pid v loc vm vm₀ ready room image v_lt pid_lt c refl in
    let (g, vm₂, e₂, l₂) =
      second-Loads pt j pid v loc vm vm₀ ready room image v_lt pid_lt c refl f vm₁ l₁ in
    (
      f,
      g,
      vm₂,
      ap
            (λ x. on_some (load_page (va pt) x (loc + 4096) 1) (
              load_page (va pt) x loc 0
                (record vm { mem = create_pte x pid (va pt + 16 * j) loc vm.mem })))
            (int_page_lem vaddr small)
          ∙ ap (on_some (load_page (va pt) v (loc + 4096) 1)) e₁
          ∙ e₂,
      both-Pairs pt j pid v loc vm vm₀ ready room image v_lt pid_lt c refl f vm₁ l₁ g vm₂ l₂,
    )
