-- ===== src/Kernel/Queue/Tests.antt =====
-- Runs of the queue operations of queue.c on small heaps, and the queue theorems at those heaps.
use ucas_coursework.Prelude.{ℕ, ◌≡◌, refl, true, false, some, List, [], ◌∷◌, arith, leb}
use ucas_coursework.Kernel.Queue.{Links, queue_init, enqueue, dequeue, peek, enqueue_sort, unlink}
use ucas_coursework.Kernel.Queue.Seg.{IsQueue}
use ucas_coursework.Kernel.Queue.Ops.{
  queue_init-IsQueue, enqueue-IsQueue, unlink-IsQueue, dequeue-TakesFirst, TakesFirst, Apart,
}
use ucas_coursework.Kernel.Queue.Sorted.{insert, enqueue_sort-insert}

abbrev blank : Links
blank = record { next = λ p. 0; prev = λ p. 0 }

-- Two queues, with sentinels 10 and 20.
abbrev empty_queues : Links
empty_queues = queue_init 10 (queue_init 20 blank)

abbrev ten : List ℕ
ten = 1 ∷ 5 ∷ []

abbrev heap : Links
heap = enqueue 10 5 (enqueue 10 1 empty_queues)

heap-IsQueue : IsQueue heap 10 ten
heap-IsQueue =
    enqueue-IsQueue (enqueue 10 1 empty_queues) 10 5 (1 ∷ [])
      (enqueue-IsQueue empty_queues 10 1 [] (queue_init-IsQueue 10 (queue_init 20 blank)) refl) refl

second-IsQueue : IsQueue heap 20 []
unfolding enqueue queue_init
second-IsQueue = record { chain = (refl, refl); distinct = (refl, tt) }

abbrev third : Links
third = enqueue 10 9 heap

third-IsQueue : IsQueue third 10 (1 ∷ 5 ∷ 9 ∷ [])
third-IsQueue = enqueue-IsQueue heap 10 9 ten heap-IsQueue refl

dequeue_run : (dequeue 10 heap).0 ≡ some 1
unfolding dequeue enqueue queue_init
dequeue_run = refl

dequeue_twice_run : (dequeue 10 (dequeue 10 heap).1).0 ≡ some 5
unfolding dequeue enqueue queue_init
dequeue_twice_run = refl

unlink_run : peek 10 (unlink 1 heap) ≡ some 5
unfolding peek unlink enqueue queue_init
unlink_run = refl

enqueue-IsQueue_example : IsQueue (enqueue 10 9 heap) 10 (1 ∷ 5 ∷ 9 ∷ [])
enqueue-IsQueue_example = enqueue-IsQueue heap 10 9 ten heap-IsQueue refl

dequeue-TakesFirst_example : TakesFirst heap 10 ten (dequeue 10 heap)
dequeue-TakesFirst_example = dequeue-TakesFirst heap 10 ten heap-IsQueue

unlink-IsQueue_example : IsQueue (unlink 5 third) 10 (1 ∷ 9 ∷ [])
unlink-IsQueue_example = unlink-IsQueue third 10 (1 ∷ []) 5 (9 ∷ []) third-IsQueue

apart : Apart (10 ∷ ten) (20 ∷ [])
apart p i = ground arith

enqueue_sort-insert_example :
    (g : Links) × (enqueue_sort 3 10 4 leb heap ≡ some g) × IsQueue g 10 (insert leb 4 ten)
enqueue_sort-insert_example =
    enqueue_sort-insert leb heap 10 4 ten 3 heap-IsQueue refl refl (omega arith)

leb-total : (a b : ℕ) → leb a b ≡ false → leb b a ≡ true
leb-total a b e = ground arith
