-- ===== src/Memory/Tests.antt =====
-- Runs of the memory manager, and the theorem at a concrete task.
use ucas_coursework.Prelude.{ℕ, ◌≡◌, refl, Option, some, on_some, List, [], inl, arith}
use ucas_coursework.Memory.{
  Vm, Task, init_memory, page_alloc, page_vaddr, page_paddr, bcopy, create_pte, find_pte, or_entry,
  insert_page_table_entry, load_page, int_page, load_pair, load_pairs, setup_page_table, find_tlb,
  do_tlb_miss,
}
use ucas_coursework.Memory.Pages.{init_memory-IsLaid}
use ucas_coursework.Memory.Mapped.{Mapped, setup_page_table-Mapped}

-- Every word holds its address.
abbrev start : Vm
start = init_memory (record { page_map = []; mem = λ a. a; flushed = [] })

abbrev task : Task
task = record { entry_point = 0x00400000; loc = 0xa0800000; size = 4096 }

abbrev miss : Option (ℕ × Vm) → Option ℕ
miss = on_some (λ (pt, vm). do_tlb_miss 512 3 pt vm)

abbrev word : ℕ → Option (ℕ × Vm) → Option ℕ
word a = on_some (λ (pt, vm). some (vm.mem a))

-- The table is page 0, the image pages 1 and 2; the entry has their numbers and four flags.
table_run : miss (setup_page_table 3 task start) ≡ some 0xa0908000
unfolding init_memory page_alloc setup_page_table do_tlb_miss page_vaddr page_paddr find_tlb
    load_pairs load_pair int_page load_page create_pte bcopy insert_page_table_entry find_pte
    or_entry
table_run = refl

entry_run : word 0xa0908000 (setup_page_table 3 task start) ≡ some 0x24257
unfolding init_memory page_alloc setup_page_table page_vaddr page_paddr load_pairs load_pair
    int_page load_page create_pte bcopy insert_page_table_entry find_pte or_entry
entry_run = refl

image_run : word 0xa090a004 (setup_page_table 3 task start) ≡ some 0xa0801004
unfolding init_memory page_alloc setup_page_table page_vaddr page_paddr load_pairs load_pair
    int_page load_page create_pte bcopy insert_page_table_entry find_pte or_entry
image_run = refl

setup_page_table-Mapped_example :
    (pt : ℕ) × (frames : List ℕ) × (vm' : Vm) × (setup_page_table 3 task start ≡ some (pt, vm'))
    × Mapped 3 pt task frames start vm'
setup_page_table-Mapped_example =
    setup_page_table-Mapped 3 task start (init_memory-IsLaid _).0
      (rw (init_memory-IsLaid _).1 (omega arith)) (inl (omega arith)) (omega arith) (omega arith)
      (omega arith)
