-- ===== src/Kernel/Queue.antt =====
-- queue.c of Operating System/p4-Synchronization-Primitives-IPC: circular doubly linked lists with a
-- sentinel, over an explicit heap of links. Each assignment of the source is one write, in its order,
-- and every read goes to the heap as the writes before it left it.
pub mod Seg
pub mod Ops
pub mod Sorted
mod Tests
use ucas_coursework.Prelude.{
  ℕ, zero, suc, Bool, true, false, Option, none, some, ◌==◌, if◌then◌else◌, update,
}

-- `node_t`: the two link fields of the node at each address.
pub record Links : Type 0 where
  pub next : ℕ → ℕ
  pub prev : ℕ → ℕ

-- `p->next = v`
abbrev pub set_next : ℕ → ℕ → Links → Links
set_next p v h = record h { next = update h.next p v }

-- `p->prev = v`
abbrev pub set_prev : ℕ → ℕ → Links → Links
set_prev p v h = record h { prev = update h.prev p v }

unfoldable pub queue_init : ℕ → Links → Links
queue_init queue h = set_prev queue queue (set_next queue queue h)

-- `none` is the NULL that an empty queue returns.
unfoldable pub dequeue : ℕ → Links → Option ℕ × Links
dequeue queue h =
    let item : ℕ = h.next queue in
    let h₁ : Links = set_next (h.prev item) (h.next item) h in
    let h₂ : Links = set_prev (h₁.next item) (h₁.prev item) h₁ in
    if item == queue then (none, h) else (some item, h₂)

unfoldable pub enqueue : ℕ → ℕ → Links → Links
enqueue queue item h =
    let h₁ : Links = set_prev item (h.prev queue) h in
    let h₂ : Links = set_next item queue h₁ in
    let h₃ : Links = set_next (h₂.prev item) item h₂ in set_prev (h₃.next item) item h₃

unfoldable pub is_empty : ℕ → Links → Bool
is_empty queue h = h.next queue == queue

unfoldable pub peek : ℕ → Links → Option ℕ
peek queue h = if h.next queue == queue then none else some (h.next queue)

-- The loop of `enqueue_sort`; `none` means that the fuel ran out. `iter` never is NULL in a queue,
-- but the source tests it.
unfoldable pub sort_loop : ℕ → (ℕ → ℕ → Bool) → ℕ → ℕ → ℕ → Links → Option Links
sort_loop zero lte q elt iter h = none
sort_loop (suc fuel) lte q elt iter h =
    let rest = sort_loop fuel lte q elt (h.next iter) h in
    if iter == 0
    then some (enqueue q elt h)
    else if iter == q
    then some (enqueue q elt h)
    else if lte elt iter
    then some (enqueue iter elt h)
    else rest

unfoldable pub enqueue_sort : ℕ → ℕ → ℕ → (ℕ → ℕ → Bool) → Links → Option Links
unfolding sort_loop
enqueue_sort fuel q elt lte h = sort_loop fuel lte q elt (h.next q) h

-- The removal of a task's node from whatever queue holds it, as `do_kill` of kernel.c writes it.
unfoldable pub unlink : ℕ → Links → Links
unlink node h =
    let h₁ : Links = set_next (h.prev node) (h.next node) h in
    set_prev (h₁.next node) (h₁.prev node) h₁
