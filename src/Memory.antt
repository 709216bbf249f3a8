-- ===== src/Memory.antt =====
-- memory.c, memory.h and `bcopy` of util.c of Operating System/p5-Virtual Memory: the map of pages and the page
-- tables. Memory is words of 32 bits at addresses that are multiples of 4, and an image begins at such
-- an address. `none` is a fault: there is no page left, or a search leaves the page of its table.
pub mod Words
pub mod Pages
pub mod Copy
pub mod Load
pub mod Entry
pub mod Pair
pub mod Loaded
pub mod Table
pub mod Mapped
mod Tests
use Prim.Native.Nat.{bit_and, bit_or}
use ucas_coursework.Prelude.{
  ℕ, zero, suc, ◌+◌, ◌-◌, ◌*◌, ◌/◌, ◌%◌, ◌^◌, Option, none, some, on_some, List, [], ◌∷◌, ◌++◌,
  ◌==◌, ltb, ◌&&◌, if◌then◌else◌, get_or, update,
}

-- `page_map_entry_t`
pub record PageEntry : Type 0 where
  pub num : ℕ
  pub paddr : ℕ
  pub vaddr : ℕ
  pub pin : ℕ
  pub used : ℕ

-- The page map, the memory, and the arguments of the calls of `tlb_flush`
pub record Vm : Type 0 where
  pub page_map : List PageEntry
  pub mem : ℕ → ℕ
  pub flushed : List ℕ

-- The fields of a PCB that are read
pub record Task : Type 0 where
  pub entry_point : ℕ
  pub loc : ℕ
  pub size : ℕ

abbrev pub mem_start : ℕ
mem_start = 0xa0908000

abbrev pub no_page : PageEntry
no_page = record { num = 0; paddr = 0; vaddr = 0; pin = 0; used = 0 }

unfoldable pub page_vaddr : ℕ → List PageEntry → ℕ
page_vaddr i pages = (get_or pages i no_page).vaddr

unfoldable pub page_paddr : ℕ → List PageEntry → ℕ
page_paddr i pages = (get_or pages i no_page).paddr

unfoldable pub va2pa : ℕ → ℕ
va2pa va = (va + 2 ^ 32 - 0xa0000000) % 2 ^ 32

unfoldable pub pa2va : ℕ → ℕ
pa2va pa = (pa + 0xa0000000) % 2 ^ 32

-- The loop of `init_memory`, with the pages that are left and the number of the next
unfoldable pub init_pages : ℕ → ℕ → ℕ → List PageEntry
unfolding va2pa
init_pages zero i begin = []
init_pages (suc n) i begin =
    record { num = i; paddr = va2pa begin; vaddr = begin; pin = 0; used = 0 }
    ∷ init_pages n (i + 1) (begin + 4096)

-- 256 is PAGEABLE_PAGES. The two queues that it makes empty are not used.
unfoldable pub init_memory : Vm → Vm
unfolding init_pages
init_memory vm = record vm { page_map = init_pages 256 0 mem_start }

abbrev pub behind : PageEntry → Option (ℕ × List PageEntry) → Option (ℕ × List PageEntry)
behind p found = on_some (λ (i, pages). some (suc i, p ∷ pages)) found

-- The first page that is not used is taken.
unfoldable pub page_alloc : ℕ → List PageEntry → Option (ℕ × List PageEntry)
page_alloc pinned [] = none
page_alloc pinned (p ∷ pages) =
    let rest = behind p (page_alloc pinned pages) in
    if p.used == 0 then some (0, record p { used = 1; pin = pinned } ∷ pages) else rest

-- The two loops of `bcopy`, word by word: from the end, and from the front
unfoldable pub copy_down : ℕ → ℕ → ℕ → (ℕ → ℕ) → ℕ → ℕ
copy_down zero src dst mem = mem
copy_down (suc n) src dst mem = copy_down n src dst (update mem (dst + 4 * n) (mem (src + 4 * n)))

unfoldable pub copy_up : ℕ → ℕ → ℕ → (ℕ → ℕ) → ℕ → ℕ
copy_up zero src dst mem = mem
copy_up (suc n) src dst mem = copy_up n (src + 4) (dst + 4) (update mem dst (mem src))

unfoldable pub bcopy : ℕ → ℕ → ℕ → (ℕ → ℕ) → ℕ → ℕ
unfolding copy_down copy_up
bcopy n src dst mem = if ltb src dst then copy_down n src dst mem else copy_up n src dst mem

-- A PTE is four words: `entrylo_0`, `entrylo_1`, `entryhi` and `daddr`. 23 is the bits PE_G, PE_V, PE_D
-- and PE_UC.
unfoldable pub create_pte : ℕ → ℕ → ℕ → ℕ → (ℕ → ℕ) → ℕ → ℕ
create_pte vaddr pid pte daddr mem =
    update
      (update (update (update mem (pte + 8) (bit_or (vaddr * 2 ^ 13 % 2 ^ 32) pid)) pte 23)
        (pte + 4) 23)
      (pte + 12) daddr

-- The walk of `insert_page_table_entry`; a page has room for 256 entries.
unfoldable pub find_pte : ℕ → ℕ → ℕ → (ℕ → ℕ) → Option ℕ
find_pte zero t vaddr mem = none
find_pte (suc fuel) t vaddr mem =
    let rest = find_pte fuel (t + 16) vaddr mem in
    if mem (t + 8) / 2 ^ 13 == vaddr then some t else rest

-- What is written where the walk ends: `flag` selects the word.
unfoldable pub or_entry : ℕ → ℕ → ℕ → (ℕ → ℕ) → ℕ → ℕ
or_entry t paddr flag mem =
    let entrylo : ℕ = paddr / 2 ^ 12 * 2 ^ 6 % 2 ^ 32 in
    if flag == 0
    then update mem t (bit_or (mem t) entrylo)
    else if flag == 1
    then update mem (t + 4) (bit_or (mem (t + 4)) entrylo)
    else mem

unfoldable pub insert_page_table_entry : ℕ → ℕ → ℕ → ℕ → Vm → Option Vm
insert_page_table_entry table vaddr paddr flag vm =
    on_some
      (λ t. some (record vm {
        mem = or_entry t paddr flag vm.mem;
        flushed = vm.flushed ++ (vm.mem (t + 8) ∷ []);
      }))
      (find_pte 256 table vaddr vm.mem)

-- One half of a round of `setup_page_table`: a page is taken, filled, and entered.
unfoldable pub load_page : ℕ → ℕ → ℕ → ℕ → Vm → Option Vm
load_page table vpn loc flag vm =
    on_some
      (λ (i, pages).
        insert_page_table_entry table vpn (page_paddr i pages) flag
          (record vm { page_map = pages; mem = bcopy 1024 loc (page_vaddr i pages) vm.mem }))
      (page_alloc 0 vm.page_map)

-- `vaddr>>13` for an `int`, as 32 bits: the sign is carried in.
unfoldable pub int_page : ℕ → ℕ
int_page vaddr = if ltb vaddr (2 ^ 31) then vaddr / 2 ^ 13 else vaddr / 2 ^ 13 + (2 ^ 32 - 2 ^ 19)

-- A round, for the entry at `pte`
unfoldable pub load_pair : ℕ → ℕ → ℕ → ℕ → ℕ → Vm → Option Vm
load_pair table pid vaddr pte loc vm = on_some (load_page table (int_page vaddr) (loc + 4096) 1) (
    load_page table (int_page vaddr) loc 0
      (record vm { mem = create_pte (int_page vaddr) pid pte loc vm.mem }))

unfoldable pub load_pairs : ℕ → ℕ → ℕ → ℕ → ℕ → ℕ → Vm → Option Vm
load_pairs zero table pid vaddr pte loc vm = some vm
load_pairs (suc n) table pid vaddr pte loc vm =
    on_some (load_pairs n table pid ((vaddr + 8192) % 2 ^ 32) (pte + 16) (loc + 8192))
      (load_pair table pid vaddr pte loc vm)

-- The rounds for `i` = 0, 2, … up to the number of pages
abbrev pub rounds_of : Task → ℕ
rounds_of task = task.size / 4096 / 2 + 1

-- The page of the table
unfoldable pub setup_page_table : ℕ → Task → Vm → Option (ℕ × Vm)
setup_page_table pid task vm = if pid == 0 then some (0, vm) else fill (page_alloc 1 vm.page_map)
  where
    fill : Option (ℕ × List PageEntry) → Option (ℕ × Vm)
    fill none = none
    fill (some (i, pages)) =
        let table : ℕ = page_vaddr i pages in
        on_some (λ vm'. some (i, vm'))
          (load_pairs (rounds_of task) table pid task.entry_point table task.loc
            (record vm { page_map = pages }))

-- The walk of `do_tlb_miss`
unfoldable pub find_tlb : ℕ → ℕ → ℕ → ℕ → (ℕ → ℕ) → Option ℕ
find_tlb zero t vaddr pid mem = none
find_tlb (suc fuel) t vaddr pid mem =
    let rest = find_tlb fuel (t + 16) vaddr pid mem in
    if mem (t + 8) / 2 ^ 13 == vaddr && bit_and (mem (t + 8)) 0x0fff == pid then some t else rest

-- The address of the entry, in the table in page `page_table`
unfoldable pub do_tlb_miss : ℕ → ℕ → ℕ → Vm → Option ℕ
do_tlb_miss vaddr pid page_table vm =
    find_tlb 256 (page_vaddr page_table vm.page_map) vaddr pid vm.mem
