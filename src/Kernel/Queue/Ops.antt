-- ===== src/Kernel/Queue/Ops.antt =====
-- The queue operations against the list of nodes that a queue holds.
use ucas_coursework.Prelude.{
  ℕ, ◌≡◌, ◌≢◌, refl, false, none, some, List, [], ◌∷◌, ◌++◌, arith, ◌∈◌, ◌∉◌, Distinct, has-append,
  Distinct-snoc, Option, is_nil, head?, ◌==◌,
}
use ucas_coursework.Kernel.Queue.{
  Links, set_next, set_prev, queue_init, dequeue, enqueue, is_empty, peek, unlink,
}
use ucas_coursework.Kernel.Queue.Seg.{Linked, IsQueue, prev-mem, IsQueue-frame, Linked-frame}

-- Inserting in front of the end of a segment appends to the segment.
pub Linked-enqueue :
    (h : Links) (item a : ℕ) (xs : List ℕ) (b : ℕ)
    → Linked h a xs b
    → item ∉ (a ∷ xs)
    → item ≢ b
    → b ∉ xs
    → Distinct (a ∷ xs)
    → Linked (enqueue b item h) a (xs ++ (item ∷ [])) b
unfolding enqueue
Linked-enqueue h item a [] b l n ne nb d = ground arith
Linked-enqueue h item a (x ∷ xs) b l n ne nb d = (
  ground (arith, prev-mem h x xs b l.2),
  ground arith,
  Linked-enqueue h item x xs b l.2 (ground arith) ne (ground arith) d.1,
)

-- The neighbours of a node inside a segment.
mid-prev :
    (h : Links) (a : ℕ) (xs : List ℕ) (x : ℕ) (ys : List ℕ) (b : ℕ)
    → Linked h a (xs ++ (x ∷ ys)) b
    → h.prev x ∈ (a ∷ xs)
mid-prev h a [] x ys b l = ground arith
mid-prev h a (w ∷ xs) x ys b l = ground (arith, mid-prev h w xs x ys b l.2)

pub mid-next :
    (h : Links) (a : ℕ) (xs : List ℕ) (x : ℕ) (ys : List ℕ) (b : ℕ)
    → Linked h a (xs ++ (x ∷ ys)) b
    → h.next x ∈ (b ∷ ys)
mid-next h a [] x [] b l = ground arith
mid-next h a [] x (y ∷ ys) b l = ground arith
mid-next h a (w ∷ xs) x ys b l = mid-next h w xs x ys b l.2

-- The only cells that `enqueue` writes.
pub next-enqueue_ne :
    (h : Links) (q item p : ℕ) → p ≢ h.prev q → p ≢ item → (enqueue q item h).next p ≡ h.next p
unfolding enqueue
next-enqueue_ne h q item p a b = ground arith

pub prev-enqueue_ne :
    (h : Links) (q item p : ℕ) → p ≢ q → p ≢ item → (enqueue q item h).prev p ≡ h.prev p
unfolding enqueue
prev-enqueue_ne h q item p a b = ground arith

unlink-same :
    (h : Links) (x p : ℕ)
    → p ≢ h.prev x
    → p ≢ (set_next (h.prev x) (h.next x) h).next x
    → ((unlink x h).next p ≡ h.next p) × ((unlink x h).prev p ≡ h.prev p)
unfolding unlink
unlink-same h x p a b = ground arith

-- Unlinking a node from the middle of a segment joins what stands on its two sides.
pub Linked-unlink :
    (h : Links) (a : ℕ) (xs : List ℕ) (x : ℕ) (ys : List ℕ) (b : ℕ)
    → Linked h a (xs ++ (x ∷ ys)) b
    → Distinct (a ∷ xs ++ (x ∷ ys))
    → b ∉ (xs ++ (x ∷ ys))
    → Linked (unlink x h) a (xs ++ ys) b
unfolding unlink
Linked-unlink h a [] x [] b l d n = ground arith
Linked-unlink h a [] x (y ∷ ys) b l d n = (
  ground arith,
  ground arith,
  Linked-frame h (unlink x h) y ys b l.2.2 (λ p i. ground arith) (λ p i. ground arith)
      (ground arith),
)
Linked-unlink h a (w ∷ xs) x ys b l d n = (
  ground (arith, mid-prev h w xs x ys b l.2, has-append a xs (x ∷ ys), has-append w xs (x ∷ ys)),
  ground (arith, mid-next h w xs x ys b l.2, has-append a xs (x ∷ ys), has-append w xs (x ∷ ys)),
  Linked-unlink h w xs x ys b l.2 d.1 (ground arith),
)

-- `queue_init` makes a queue that holds nothing, whatever the links were.
pub queue_init-IsQueue : (q : ℕ) (h : Links) → IsQueue (queue_init q h) q []
unfolding queue_init
queue_init-IsQueue q h = record { chain = ground arith; distinct = (refl, tt) }

-- `enqueue` of a node that is not in the queue puts it behind the others.
pub enqueue-IsQueue :
    (h : Links) (q item : ℕ) (xs : List ℕ)
    → IsQueue h q xs
    → item ∉ (q ∷ xs)
    → IsQueue (enqueue q item h) q (xs ++ (item ∷ []))
enqueue-IsQueue h q item xs is n = record {
  chain = Linked-enqueue h item q xs q is.chain n (ground arith) is.distinct.0 is.distinct;
  distinct = (
    ground (arith, has-append q xs (item ∷ []), is.distinct.0),
    Distinct-snoc item xs is.distinct.1 (ground arith),
  );
}

Distinct-remove :
    (xs : List ℕ) (x : ℕ) (ys : List ℕ) → Distinct (xs ++ (x ∷ ys)) → Distinct (xs ++ ys)
Distinct-remove [] x ys d = d.1
Distinct-remove (w ∷ xs) x ys d =
    (ground (arith, has-append w xs (x ∷ ys), has-append w xs ys), Distinct-remove xs x ys d.1)

-- Unlinking a node, as `do_kill` does, takes just that node out of its queue and keeps the order.
pub unlink-IsQueue :
    (h : Links) (q : ℕ) (xs : List ℕ) (x : ℕ) (ys : List ℕ)
    → IsQueue h q (xs ++ (x ∷ ys))
    → IsQueue (unlink x h) q (xs ++ ys)
unlink-IsQueue h q xs x ys is = record {
  chain = Linked-unlink h q xs x ys q is.chain is.distinct is.distinct.0;
  distinct = Distinct-remove (q ∷ xs) x ys is.distinct;
}

-- What a removal from the front of a queue that holds `xs` does: `out` is the node returned and the
-- heap left.
abbrev pub TakesFirst : Links → ℕ → List ℕ → Option ℕ × Links → Type 0
TakesFirst h q [] out = out ≡ (none, h)
TakesFirst h q (x ∷ xs) out = (out.0 ≡ some x) × (out.1 ≡ unlink x h) × IsQueue out.1 q xs

-- `dequeue` of a queue returns the first node, unlinks it and leaves the others in order; of an empty
-- queue it returns NULL and writes nothing.
pub dequeue-TakesFirst :
    (h : Links) (q : ℕ) (xs : List ℕ) → IsQueue h q xs → TakesFirst h q xs (dequeue q h)
unfolding dequeue
dequeue-TakesFirst h q [] is = ground (arith, is.chain.0)
dequeue-TakesFirst h q (x ∷ xs) is =
    let ne : (x == q) ≡ false = ground (arith, is.distinct.0) in
    rw (is.chain.0, ne) (refl, same, rw same (unlink-IsQueue h q [] x xs is))
  where
    same :
        set_prev
          ((set_next (h.prev x) (h.next x) h).next x)
          (h.prev x)
          (set_next (h.prev x) (h.next x) h)
        ≡ unlink x h
    same = unfold unlink in refl

-- `is_empty` and `peek` read the queue: 1 and NULL exactly where it holds nothing, else the first node.
pub peek_lem :
    (h : Links) (q : ℕ) (xs : List ℕ)
    → IsQueue h q xs
    → (is_empty q h ≡ is_nil xs) × (peek q h ≡ head? xs)
unfolding is_empty peek
peek_lem h q [] is = ground (arith, is.chain.0)
peek_lem h q (x ∷ xs) is = ground (arith, is.chain.0, is.distinct.0)

-- Two queues with no node in common.
abbrev pub Apart : List ℕ → List ℕ → Type 0
Apart xs ys = (p : ℕ) → p ∈ xs → p ∉ ys

-- Adding a node to one queue leaves every queue that shares no node with it as it was.
pub enqueue-other :
    (h : Links) (q item : ℕ) (xs : List ℕ) (r : ℕ) (ys : List ℕ)
    → IsQueue h q xs
    → IsQueue h r ys
    → Apart (q ∷ xs) (r ∷ ys)
    → item ∉ (r ∷ ys)
    → IsQueue (enqueue q item h) r ys
enqueue-other h q item xs r ys is other apart out =
    IsQueue-frame h (enqueue q item h) r ys other λ p i. (
      next-enqueue_ne h q item p (λ e. cc (apart (h.prev q) (prev-mem h q xs q is.chain), i, e))
          (λ e. ground arith),
      prev-enqueue_ne h q item p (λ e. ground (arith, apart p)) (λ e. ground arith),
    )

-- Taking the first node of one queue leaves every queue that shares no node with it as it was.
pub dequeue-other :
    (h : Links) (q : ℕ) (xs : List ℕ) (r : ℕ) (ys : List ℕ)
    → IsQueue h q xs
    → IsQueue h r ys
    → Apart (q ∷ xs) (r ∷ ys)
    → IsQueue (dequeue q h).1 r ys
dequeue-other h q [] r ys is other apart = rw (dequeue-TakesFirst h q [] is) other
dequeue-other h q (x ∷ xs) r ys is other apart = rw ((dequeue-TakesFirst h q (x ∷ xs) is).1) (
    IsQueue-frame h (unlink x h) r ys other λ p i.
      unlink-same h x p (λ e. ground (arith, apart p, is.chain.1))
        (λ e. ground (arith, apart p, mid-next h q [] x xs q is.chain)))
