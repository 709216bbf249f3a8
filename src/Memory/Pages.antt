-- ===== src/Memory/Pages.antt =====
-- The pages that `page_alloc` of memory.c, Operating System/p5-Virtual Memory, gives.
use ucas_coursework.Prelude.{
  ℕ, zero, suc, ◌+◌, ◌-◌, ◌*◌, ◌≤◌, ◌<◌, ◌≡◌, ◌≢◌, refl, ap, ◌∙◌, Bool-cases, inl, inr, arith, ◌==◌,
  ==_iff, if◌then◌else◌, none, some, List, [], ◌∷◌, length, length-set, get_or, set,
  get_or-set_self, get_or-set_ne,
}
use ucas_coursework.Memory.{
  PageEntry, Vm, mem_start, no_page, page_vaddr, page_paddr, va2pa, init_pages, init_memory, behind,
  page_alloc,
}

abbrev pub used : ℕ → List PageEntry → ℕ
used i pages = (get_or pages i no_page).used

-- The page `i` is marked as used.
pub taken : ℕ → ℕ → List PageEntry → List PageEntry
taken pinned i pages = set pages i (record (get_or pages i no_page) { used = 1; pin = pinned })

pub free : List PageEntry → ℕ
free [] = 0
free (p ∷ pages) = let rest = free pages in if p.used == 0 then suc rest else rest

-- A page that was not used is taken, and nothing else changes.
pub record Gives (pinned : ℕ) (pages : List PageEntry) (i : ℕ) : Type 0 where
  pub result : page_alloc pinned pages ≡ some (i, taken pinned i pages)
  pub unused : used i pages ≡ 0
  pub within : i < length pages
  pub left : free (taken pinned i pages) + 1 ≡ free pages

pub page_alloc-Gives :
    (pinned : ℕ) (pages : List PageEntry) → 0 < free pages → (i : ℕ) × Gives pinned pages i
unfolding page_alloc taken free
page_alloc-Gives pinned [] h = absurd (omega arith)
page_alloc-Gives pinned (p ∷ pages) h = elim (Bool-cases (p.used == 0)) [
  | inl here ↦ (
    0,
    record {
      result = rw here refl;
      unused = (==_iff p.used 0).0 here;
      within = omega arith;
      left = rw here (omega arith);
    },
  )
  | inr there ↦
      let (i, g) = page_alloc-Gives pinned pages (rw there at h) in
      (
        suc i,
        record {
          result = rw there (ap (behind p) g.result);
          unused = g.unused;
          within = omega (arith, g.within);
          left = rw there g.left;
        },
      )
]

-- Where there is no page left the end of the function is reached without a result.
pub page_alloc-none :
    (pinned : ℕ) (pages : List PageEntry) → free pages ≡ 0 → page_alloc pinned pages ≡ none
unfolding page_alloc free
page_alloc-none pinned [] h = refl
page_alloc-none pinned (p ∷ pages) h = elim (Bool-cases (p.used == 0)) [
  | inl here ↦ absurd (let bad : suc (free pages) ≡ 0 = rw here at h in omega (arith, bad))
  | inr there ↦ rw there (ap (behind p) (page_alloc-none pinned pages (rw there at h)))
]

pub page_vaddr-taken :
    (pinned i j : ℕ) (pages : List PageEntry)
    → page_vaddr j (taken pinned i pages) ≡ page_vaddr j pages
unfolding page_vaddr taken
page_vaddr-taken pinned i j [] = refl
page_vaddr-taken pinned zero zero (p ∷ pages) = refl
page_vaddr-taken pinned zero (suc j) (p ∷ pages) = refl
page_vaddr-taken pinned (suc i) zero (p ∷ pages) = refl
page_vaddr-taken pinned (suc i) (suc j) (p ∷ pages) = page_vaddr-taken pinned i j pages

pub page_paddr-taken :
    (pinned i j : ℕ) (pages : List PageEntry)
    → page_paddr j (taken pinned i pages) ≡ page_paddr j pages
unfolding page_paddr taken
page_paddr-taken pinned i j [] = refl
page_paddr-taken pinned zero zero (p ∷ pages) = refl
page_paddr-taken pinned zero (suc j) (p ∷ pages) = refl
page_paddr-taken pinned (suc i) zero (p ∷ pages) = refl
page_paddr-taken pinned (suc i) (suc j) (p ∷ pages) = page_paddr-taken pinned i j pages

pub used-taken :
    (pinned i : ℕ) (pages : List PageEntry) → i < length pages → used i (taken pinned i pages) ≡ 1
unfolding taken
used-taken pinned i pages h = ap (λ p. p.used) (get_or-set_self pages i _ no_page h)

pub used-taken_other :
    (pinned i j : ℕ) (pages : List PageEntry) → i ≢ j → used j (taken pinned i pages) ≡ used j pages
unfolding taken
used-taken_other pinned i j pages h = ap (λ p. p.used) (get_or-set_ne pages _ no_page h)

pub length-taken :
    (pinned i : ℕ) (pages : List PageEntry) → length (taken pinned i pages) ≡ length pages
unfolding taken
length-taken pinned i pages = length-set pages i _

-- The map has 256 pages, one behind the other.
pub record IsLaid (pages : List PageEntry) : Type 0 where
  pub size : length pages ≡ 256
  pub vaddr : (i : ℕ) → i < 256 → page_vaddr i pages ≡ mem_start + 4096 * i
  pub paddr : (i : ℕ) → i < 256 → page_paddr i pages ≡ mem_start - 0xa0000000 + 4096 * i

pub taken-IsLaid :
    (pinned i : ℕ) (pages : List PageEntry) → IsLaid pages → IsLaid (taken pinned i pages)
taken-IsLaid pinned i pages l = record {
  size = length-taken pinned i pages ∙ l.size;
  vaddr = λ j h. page_vaddr-taken pinned i j pages ∙ l.vaddr j h;
  paddr = λ j h. page_paddr-taken pinned i j pages ∙ l.paddr j h;
}

init_pages-vaddr :
    (n i begin k : ℕ) → k < n → page_vaddr k (init_pages n i begin) ≡ begin + 4096 * k
unfolding init_pages page_vaddr
init_pages-vaddr zero i begin k h = absurd (omega arith)
init_pages-vaddr (suc n) i begin zero h = omega arith
init_pages-vaddr (suc n) i begin (suc k) h =
    init_pages-vaddr n (i + 1) (begin + 4096) k (omega arith) ∙ omega arith

init_pages-paddr :
    (n i begin k : ℕ) → k < n → page_paddr k (init_pages n i begin) ≡ va2pa (begin + 4096 * k)
unfolding init_pages page_paddr
init_pages-paddr zero i begin k h = absurd (omega arith)
init_pages-paddr (suc n) i begin zero h = ap va2pa (omega arith)
init_pages-paddr (suc n) i begin (suc k) h =
    init_pages-paddr n (i + 1) (begin + 4096) k (omega arith) ∙ ap va2pa (omega arith)

init_pages-length : (n i begin : ℕ) → length (init_pages n i begin) ≡ n
unfolding init_pages
init_pages-length zero i begin = refl
init_pages-length (suc n) i begin = ap suc (init_pages-length n (i + 1) (begin + 4096))

init_pages-free : (n i begin : ℕ) → free (init_pages n i begin) ≡ n
unfolding init_pages free
init_pages-free zero i begin = refl
init_pages-free (suc n) i begin = omega (arith, init_pages-free n (i + 1) (begin + 4096))

pub init_memory-IsLaid :
    (vm : Vm) → IsLaid (init_memory vm).page_map × (free (init_memory vm).page_map ≡ 256)
unfolding init_memory
init_memory-IsLaid vm = (
  record {
    size = init_pages-length 256 0 mem_start;
    vaddr = λ i h. init_pages-vaddr 256 0 mem_start i h;
    paddr = λ i h. init_pages-paddr 256 0 mem_start i h ∙ unfold va2pa in omega arith;
  },
  init_pages-free 256 0 mem_start,
)

pub free-le-length : (pages : List PageEntry) → free pages ≤ length pages
unfolding free
free-le-length [] = omega arith
free-le-length (p ∷ pages) = ground (arith, free-le-length pages)
