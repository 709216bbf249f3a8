-- ===== src/Memory/Mapped.antt =====
-- `setup_page_table` of memory.c, Operating System/p5-Virtual Memory, and the misses that follow.
use Prim.Native.Nat.{bit_and}
use mathlib.Core.Path.{subst}
use ucas_coursework.Prelude.{
  ℕ, zero, suc, ◌+◌, ◌*◌, ◌/◌, ◌^◌, ◌≤◌, ◌<◌, ◌≡◌, refl, sym, ap, ◌∙◌, ◌⊎◌, inl, inr, arith, some,
  List, [], ◌∷◌, ◌==◌, ==_ne, ==_iff, true, false, All, All-mono, Distinct,
}
use ucas_coursework.Memory.{
  Vm, Task, page_vaddr, load_pairs, find_tlb, rounds_of, setup_page_table, do_tlb_miss,
}
use ucas_coursework.Memory.Words.{entryhi_lem}
use ucas_coursework.Memory.Copy.{Outside}
use ucas_coursework.Memory.Pages.{
  used, taken, free, Gives, page_alloc-Gives, free-le-length, page_vaddr-taken, used-taken,
  used-taken_other, IsLaid, taken-IsLaid,
}
use ucas_coursework.Memory.Load.{va, IsImage}
use ucas_coursework.Memory.Entry.{IsReady}
use ucas_coursework.Memory.Loaded.{Loaded, IsFresh, OutsideAll, Done, fresh-not_in}
use ucas_coursework.Memory.Table.{load_pairs-Done}

-- The walk of `do_tlb_miss` finds each of the entries.
find_tlb-Loaded :
    (fuel pid n t v loc : ℕ) (frames : List ℕ) (source mem : ℕ → ℕ) (k : ℕ)
    → Loaded pid n t v loc frames source mem
    → k < n
    → n ≤ fuel
    → v + n ≤ 2 ^ 19
    → pid < 2 ^ 12
    → find_tlb fuel t (v + k) pid mem ≡ some (t + 16 * k)
unfolding find_tlb
find_tlb-Loaded fuel pid zero t v loc frames source mem k l h q v_lt p = absurd (omega arith)
find_tlb-Loaded fuel pid (suc n) t v loc [] source mem k l h q v_lt p = absurd l
find_tlb-Loaded fuel pid (suc n) t v loc (f ∷ []) source mem k l h q v_lt p = absurd l
find_tlb-Loaded zero pid (suc n) t v loc (f ∷ g ∷ frames) source mem k l h q v_lt p =
    absurd (omega arith)
find_tlb-Loaded (suc fuel) pid (suc n) t v loc (f ∷ g ∷ frames) source mem zero l h q v_lt p =
    let (vpn_is, pid_is) = entryhi_lem v pid (omega arith) p in
    let number : (mem (t + 8) / 2 ^ 13 == v + 0) ≡ true =
      (==_iff _ _).1 (ap (λ x. x / 2 ^ 13) l.0.entryhi ∙ vpn_is ∙ omega arith) in
    let process : (bit_and (mem (t + 8)) 0x0fff == pid) ≡ true =
      (==_iff _ _).1 (ap (λ x. bit_and x 0x0fff) l.0.entryhi ∙ pid_is) in
    let start : t ≡ t + 16 * 0 = omega arith in rw (number, process) (ap some start)
find_tlb-Loaded (suc fuel) pid (suc n) t v loc (f ∷ g ∷ frames) source mem (suc k) l h q v_lt p =
    let vpn_is = (entryhi_lem v pid (omega arith) p).0 in
    let number : (mem (t + 8) / 2 ^ 13 == v + suc k) ≡ false =
      ==_ne _ _ (λ e. absurd (omega (arith, e, vpn_is, ap (λ x. x / 2 ^ 13) l.0.entryhi))) in
    let next : v + suc k ≡ v + 1 + k = omega arith in
    let entry : t + 16 + 16 * k ≡ t + 16 * suc k = omega arith in
    rw number (
      ap (λ u. find_tlb fuel (t + 16) u pid mem) next
      ∙ find_tlb-Loaded fuel pid n (t + 16) (v + 1) (loc + 8192) frames source mem k l.1
          (omega arith) (omega arith) (omega arith) p
      ∙ ap some entry)

-- The table in page `pt` maps the image of the task to the pages of the list: these and `pt` were not used
-- and are all different, nothing else is written, and a miss of each pair of pages finds its entry.
pub record Mapped (pid pt : ℕ) (task : Task) (frames : List ℕ) (vm vm' : Vm) : Type 0 where
  pub fresh : All (IsFresh vm) (pt ∷ frames)
  pub distinct : Distinct (pt ∷ frames)
  pub loaded :
      Loaded pid (rounds_of task) (va pt) (task.entry_point / 2 ^ 13) task.loc frames vm.mem vm'.mem
  pub others : (a : ℕ) → OutsideAll a (pt ∷ frames) → vm'.mem a ≡ vm.mem a
  pub found :
      (k : ℕ)
      → k < rounds_of task
      → do_tlb_miss (task.entry_point / 2 ^ 13 + k) pid pt vm' ≡ some (va pt + 16 * k)

module _ (pid pt : ℕ) (task : Task) (vm : Vm) (laid : IsLaid vm.page_map)
    (room : 1 + 2 * rounds_of task ≤ free vm.page_map) (few : rounds_of task < 256) where
  -- The state when the page of the table has been taken
  abbrev with_table : Vm
  with_table = record vm { page_map = taken 1 pt vm.page_map }

  table-Done :
      IsImage (2048 * rounds_of task) task.loc
      → task.entry_point + 8192 * rounds_of task ≤ 2 ^ 31
      → pid < 2 ^ 12
      → Gives 1 vm.page_map pt
      → (frames : List ℕ) × (vm' : Vm) × (load_pairs
            (rounds_of task)
            (va pt)
            pid
            task.entry_point
            (va pt)
            task.loc
            with_table
          ≡ some vm')
        × Done pid
            (rounds_of task)
            (va pt)
            (task.entry_point / 2 ^ 13)
            task.loc
            frames
            with_table
            vm'
  table-Done image v_lt pid_lt g =
      let start : va pt + 16 * 0 ≡ va pt = omega arith in
      let ready : IsReady pt 0 (task.entry_point / 2 ^ 13) with_table = record {
        laid = taken-IsLaid 1 pt vm.page_map laid;
        page = omega (arith, g.within, laid.size);
        pt_used = used-taken 1 pt vm.page_map g.within;
        slot = omega arith;
        before = λ k h. absurd (omega (arith, h));
      } in
      let (frames, vm', e, d) =
        load_pairs-Done (rounds_of task) pt 0 pid task.entry_point task.loc with_table ready
          (omega (arith, g.left, room)) (omega arith) image v_lt pid_lt in
      (
        frames,
        vm',
        ap (λ t. load_pairs (rounds_of task) (va pt) pid task.entry_point t task.loc with_table)
              (sym start)
            ∙ e,
        subst
            (λ t.
              Done pid (rounds_of task) t (task.entry_point / 2 ^ 13) task.loc frames with_table
                vm')
            start d,
      )

  Done-Mapped :
      task.entry_point + 8192 * rounds_of task ≤ 2 ^ 31
      → pid < 2 ^ 12
      → Gives 1 vm.page_map pt
      → (frames : List ℕ) (vm' : Vm)
      → Done pid (rounds_of task) (va pt) (task.entry_point / 2 ^ 13) task.loc frames with_table vm'
      → Mapped pid pt task frames vm vm'
  unfolding do_tlb_miss
  Done-Mapped v_lt pid_lt g frames vm' d =
      let pt_used : used pt with_table.page_map ≡ 1 = used-taken 1 pt vm.page_map g.within in
      let pt_lt : pt < 256 = omega (arith, g.within, laid.size) in
      record {
        fresh = (
          (pt_lt, g.unused),
          All-mono (IsFresh with_table) (IsFresh vm) frames
              (λ f h. (
                h.0,
                sym (
                      used-taken_other 1 pt f vm.page_map (λ q.
                        absurd
                          (omega (arith, pt_used, h.1, ap (λ k. used k with_table.page_map) q))))
                    ∙ h.1,
              ))
              d.fresh,
        );
        distinct = (fresh-not_in with_table pt frames pt_used d.fresh, d.distinct);
        loaded = d.loaded;
        others = λ a (o : OutsideAll a (pt ∷ frames)). d.others a (out_of_table a o.0) o.1;
        found = λ k h. rw (d.laid.vaddr pt pt_lt) (
            find_tlb-Loaded 256 pid (rounds_of task) (va pt) (task.entry_point / 2 ^ 13) task.loc
              frames vm.mem vm'.mem k d.loaded h (omega (arith, few)) (omega arith) pid_lt);
      }
    where
      out_of_table :
          (a : ℕ) → Outside 1024 (va pt) a → (a < va pt) ⊎ (va pt + 16 * rounds_of task ≤ a)
      out_of_table a (inl below) = inl below
      out_of_table a (inr above) = inr (omega (arith, above, few))

-- A process whose number is not 0 and below 2 ^ 12, where there are pages for its table and for its image, two
-- at a time, and its image is not in the pages: `setup_page_table` succeeds, gives a page that was not
-- used to the table and to each page of the image, all different, with the bytes of the image in
-- order, and writes nothing else; and `do_tlb_miss` finds the entry of each pair of pages, that has
-- their numbers. The addresses of the image in the process are below 2 ^ 31.
pub setup_page_table-Mapped :
    (pid : ℕ) (task : Task) (vm : Vm)
    → IsLaid vm.page_map
    → 1 + 2 * rounds_of task ≤ free vm.page_map
    → IsImage (2048 * rounds_of task) task.loc
    → task.entry_point + 8192 * rounds_of task ≤ 2 ^ 31
    → 0 < pid
    → pid < 2 ^ 12
    → (pt : ℕ) × (frames : List ℕ) × (vm' : Vm) × (setup_page_table pid task vm ≡ some (pt, vm'))
      × Mapped pid pt task frames vm vm'
unfolding setup_page_table do_tlb_miss
setup_page_table-Mapped pid task vm laid room image v_lt pid_pos pid_lt =
    let (pt, g) = page_alloc-Gives 1 vm.page_map (omega arith) in
    let few : rounds_of task < 256 = omega (arith, room, free-le-length vm.page_map, laid.size) in
    let vm₁ : Vm = record vm { page_map = taken 1 pt vm.page_map } in
    let (frames, vm', e, d) = table-Done pid pt task vm laid room few image v_lt pid_lt g in
    let va_is : page_vaddr pt (taken 1 pt vm.page_map) ≡ va pt =
      page_vaddr-taken 1 pt pt vm.page_map ∙ laid.vaddr pt (omega (arith, g.within, laid.size)) in
    (
      pt,
      frames,
      vm',
      rw (==_ne pid 0 (λ q. absurd (omega (arith, q, pid_pos))), g.result, va_is, e) refl,
      Done-Mapped pid pt task vm laid room few v_lt pid_lt g frames vm' d,
    )
