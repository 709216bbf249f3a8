-- ===== src/Memory/Load.antt =====
-- One page of a round of `setup_page_table` of memory.c, Operating System/p5-Virtual Memory.
use Prim.Native.Nat.{bit_or}
use ucas_coursework.Prelude.{
  ℕ, zero, suc, ◌+◌, ◌-◌, ◌*◌, ◌/◌, ◌%◌, ◌^◌, ◌≤◌, ◌<◌, ◌≡◌, ◌≢◌, refl, ap, ◌∙◌, ◌⊎◌, Bool-cases,
  inl, inr, arith, ==_ne, ==_iff, ltb, some, List, [], ◌∷◌, ◌++◌, update,
}
use ucas_coursework.Memory.{
  PageEntry, Vm, mem_start, page_vaddr, page_paddr, bcopy, find_pte, or_entry,
  insert_page_table_entry, load_page,
}
use ucas_coursework.Memory.Copy.{
  Outside, Apart, update_ne, update_self, bcopy-Outside, bcopy-inside,
}
use ucas_coursework.Memory.Pages.{
  used, taken, free, page_alloc-Gives, page_vaddr-taken, page_paddr-taken, IsLaid,
}

-- The address of page `i` in the kernel, and its number in the word of a PTE
abbrev pub va : ℕ → ℕ
va i = mem_start + 4096 * i

abbrev pub frame_bits : ℕ → ℕ
frame_bits i = (mem_start - 0xa0000000 + 4096 * i) / 2 ^ 12 * 2 ^ 6 % 2 ^ 32

-- The words from `loc` on are not in the pages.
abbrev pub IsImage : ℕ → ℕ → Type 0
IsImage words loc = (loc + 4 * words ≤ mem_start) ⊎ (mem_start + 4096 * 256 ≤ loc)

-- Different pages have no word in common.
pub page-Outside : (i j x : ℕ) → i ≢ j → x < 4096 → Outside 1024 (va i) (va j + x)
page-Outside i j x ne h = elim (Bool-cases (ltb j i)) [
  | inl below ↦ inl (ground arith)
  | inr above ↦ inr (ground arith)
]

pub image-Outside :
    (words loc i x : ℕ)
    → IsImage words loc
    → i < 256
    → x < 4 * words
    → Outside 1024 (va i) (loc + x)
image-Outside words loc i x (inl below) h k = inl (omega arith)
image-Outside words loc i x (inr above) h k = inr (omega arith)

pub image-Apart : (loc i : ℕ) → IsImage 1024 loc → i < 256 → Apart 1024 loc (va i)
image-Apart loc i (inl below) h = inl (omega arith)
image-Apart loc i (inr above) h = inr (omega arith)

-- The walk ends at the first entry of the page number.
pub find_pte-first :
    (fuel j t vpn : ℕ) (mem : ℕ → ℕ)
    → j < fuel
    → ((k : ℕ) → k < j → mem (t + 16 * k + 8) / 2 ^ 13 ≢ vpn)
    → mem (t + 16 * j + 8) / 2 ^ 13 ≡ vpn
    → find_pte fuel t vpn mem ≡ some (t + 16 * j)
unfolding find_pte
find_pte-first zero j t vpn mem h before at = absurd (omega arith)
find_pte-first (suc fuel) zero t vpn mem h before at =
    let start : t + 16 * 0 ≡ t = omega arith in rw start (rw ((==_iff _ _).1 (rw start at at)) refl)
find_pte-first (suc fuel) (suc j) t vpn mem h before at =
    let start : t + 16 * 0 ≡ t = omega arith in
    let shift : t + 16 * suc j ≡ t + 16 + 16 * j = omega arith in
    let next = λ (k : ℕ). let e : t + 16 * suc k ≡ t + 16 + 16 * k = omega arith in e in
    rw (==_ne (mem (t + 8) / 2 ^ 13) vpn (rw start at (before 0 (omega arith))), shift)
      (find_pte-first fuel j (t + 16) vpn mem (omega arith)
        (λ k q. rw (next k) at (before (suc k) (omega arith))) (rw shift at at))

or_entry_lem :
    (t paddr flag : ℕ) (mem : ℕ → ℕ)
    → flag < 2
    → or_entry t paddr flag mem
      ≡ update mem (t + 4 * flag) (bit_or (mem (t + 4 * flag)) (paddr / 2 ^ 12 * 2 ^ 6 % 2 ^ 32))
unfolding or_entry
or_entry_lem t paddr zero mem h = let e : t + 4 * 0 ≡ t = omega arith in rw e refl
or_entry_lem t paddr (suc zero) mem h = refl
or_entry_lem t paddr (suc (suc flag)) mem h = absurd (omega arith)

-- Page `i` was not used. It has the words from `loc` on, and its number is in word `flag` of the entry
-- at `t`; nothing else is written.
pub record Loads (t loc flag i : ℕ) (vm vm' : Vm) : Type 0 where
  pub within : i < 256
  pub unused : used i vm.page_map ≡ 0
  pub map_is : vm'.page_map ≡ taken 0 i vm.page_map
  pub left : free vm'.page_map + 1 ≡ free vm.page_map
  pub filled : (w : ℕ) → w < 1024 → vm'.mem (va i + 4 * w) ≡ vm.mem (loc + 4 * w)
  pub entered : vm'.mem (t + 4 * flag) ≡ bit_or (vm.mem (t + 4 * flag)) (frame_bits i)
  pub others : (a : ℕ) → a ≢ t + 4 * flag → Outside 1024 (va i) a → vm'.mem a ≡ vm.mem a

module _ (pt j vpn loc flag : ℕ) (vm : Vm) (laid : IsLaid vm.page_map) (page : pt < 256)
    (pt_used : used pt vm.page_map ≡ 1) (room : 0 < free vm.page_map) (slot : j < 256)
    (flag_lt : flag < 2) (image : IsImage 1024 loc)
    (before : (k : ℕ) → k < j → vm.mem (va pt + 16 * k + 8) / 2 ^ 13 ≢ vpn)
    (at : vm.mem (va pt + 16 * j + 8) / 2 ^ 13 ≡ vpn) where
  other_page : (i : ℕ) → used i vm.page_map ≡ 0 → i ≢ pt
  other_page i unused e = absurd (omega (arith, pt_used, unused, ap (λ k. used k vm.page_map) e))

  pub load_page-Loads :
      (i : ℕ) × (vm' : Vm) × (load_page (va pt) vpn loc flag vm ≡ some vm')
      × Loads (va pt + 16 * j) loc flag i vm vm'
  unfolding load_page insert_page_table_entry
  load_page-Loads =
      let (i, g) = page_alloc-Gives 0 vm.page_map room in
      let i_lt : i < 256 = omega (arith, g.within, laid.size) in
      let t : ℕ = va pt + 16 * j in
      let pages : List PageEntry = taken 0 i vm.page_map in
      let va_is : page_vaddr i pages ≡ va i =
        page_vaddr-taken 0 i i vm.page_map ∙ laid.vaddr i i_lt in
      let pa_is : page_paddr i pages ≡ mem_start - 0xa0000000 + 4096 * i =
        page_paddr-taken 0 i i vm.page_map ∙ laid.paddr i i_lt in
      let copied : ℕ → ℕ = bcopy 1024 loc (va i) vm.mem in
      let ne : i ≢ pt = other_page i g.unused in
      let table_kept = λ (x : ℕ) (h : x < 4096).
        bcopy-Outside 1024 loc (va i) vm.mem (va pt + x) (page-Outside i pt x ne h) in
      let table_word = λ (k : ℕ) (h : k < 256).
        let here : va pt + 16 * k + 8 ≡ va pt + (16 * k + 8) = omega arith in
        let e : copied (va pt + 16 * k + 8) ≡ vm.mem (va pt + 16 * k + 8) =
          rw here (table_kept (16 * k + 8) (omega arith)) in
        e in
      let found : find_pte 256 (va pt) vpn copied ≡ some t =
        find_pte-first 256 j (va pt) vpn copied slot
          (λ k h. rw (table_word k (omega arith)) (before k h)) (rw (table_word j slot) at) in
      let word : va pt + 16 * j + 4 * flag ≡ va pt + (16 * j + 4 * flag) = omega arith in
      let entry_kept : copied (t + 4 * flag) ≡ vm.mem (t + 4 * flag) =
        rw word (table_kept (16 * j + 4 * flag) (omega arith)) in
      let mem' : ℕ → ℕ =
        update copied (t + 4 * flag) (bit_or (copied (t + 4 * flag)) (frame_bits i)) in
      (
        i,
        record vm { page_map = pages; mem = mem'; flushed = vm.flushed ++ (copied (t + 8) ∷ []) },
        rw
            (
              g.result,
              va_is,
              pa_is,
              found,
              or_entry_lem t (mem_start - 0xa0000000 + 4096 * i) flag copied flag_lt,
            )
            refl,
        record {
          within = i_lt;
          unused = g.unused;
          map_is = refl;
          left = g.left;
          filled = λ w h.
              update_ne copied (t + 4 * flag) _ (va i + 4 * w) (apart_words i ne w h)
              ∙ bcopy-inside 1024 loc (va i) vm.mem w h (image-Apart loc i image i_lt);
          entered =
              update_self copied (t + 4 * flag) _ ∙ ap (λ x. bit_or x (frame_bits i)) entry_kept;
          others = λ a n o. update_ne copied _ _ a n ∙ bcopy-Outside 1024 loc (va i) vm.mem a o;
        },
      )
    where
      apart_words : (i : ℕ) → i ≢ pt → (w : ℕ) → w < 1024 → va i + 4 * w ≢ va pt + 16 * j + 4 * flag
      apart_words i ne w h e = absurd (omega (arith, e, ne, h, slot, flag_lt))
