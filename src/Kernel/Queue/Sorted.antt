-- ===== src/Kernel/Queue/Sorted.antt =====
-- `enqueue_sort` of queue.c against insertion into a sorted list.
use ucas_coursework.Prelude.{
  ℕ, zero, suc, ◌+◌, ◌<◌, ◌≡◌, ◌≢◌, refl, Bool, true, false, some, List, [], ◌∷◌, ◌++◌, arith, ◌∈◌,
  ◌∉◌, Distinct, has-append, append_assoc, append-nil, if◌then◌else◌, length, Bool-cases, inl, inr,
}
use ucas_coursework.Kernel.Queue.{Links, enqueue, sort_loop, enqueue_sort}
use ucas_coursework.Kernel.Queue.Seg.{Linked, IsQueue, Linked-frame, Linked-append, prev-mem}
use ucas_coursework.Kernel.Queue.Ops.{
  Linked-enqueue, enqueue-IsQueue, next-enqueue_ne, prev-enqueue_ne,
}

module _ (lte : ℕ → ℕ → Bool) where
  -- The list with `elt` in front of the first element that is not below it.
  unfoldable pub insert : ℕ → List ℕ → List ℕ
  insert elt [] = elt ∷ []
  insert elt (x ∷ xs) = if lte elt x then elt ∷ x ∷ xs else x ∷ insert elt xs

  abbrev pub LeHead : ℕ → List ℕ → Type 0
  LeHead x [] = Unit {0}
  LeHead x (y ∷ xs) = lte x y ≡ true

  abbrev pub IsSorted : List ℕ → Type 0
  IsSorted [] = Unit {0}
  IsSorted (x ∷ xs) = LeHead x xs × IsSorted xs

  LeHead-insert :
      (x elt : ℕ) (xs : List ℕ) → LeHead x xs → lte x elt ≡ true → LeHead x (insert elt xs)
  unfolding insert
  LeHead-insert x elt [] h e = e
  LeHead-insert x elt (y ∷ xs) h e = ground arith

  pub insert-IsSorted :
      (elt : ℕ) (xs : List ℕ)
      → ((a b : ℕ) → lte a b ≡ false → lte b a ≡ true)
      → IsSorted xs
      → IsSorted (insert elt xs)
  unfolding insert
  insert-IsSorted elt [] total s = (tt, tt)
  insert-IsSorted elt (x ∷ xs) total s = elim (Bool-cases (lte elt x)) [
    | inl le ↦ rw le (le, s)
    | inr gt ↦ rw gt (LeHead-insert x elt xs s.0 (total elt x gt), insert-IsSorted elt xs total s.1)
  ]

length-insert :
    (lte : ℕ → ℕ → Bool) (elt : ℕ) (xs : List ℕ) → length (insert lte elt xs) ≡ length xs + 1
unfolding insert
length-insert lte elt [] = refl
length-insert lte elt (x ∷ xs) = ground (arith, length-insert lte elt xs)

Linked-split :
    (h : Links) (a : ℕ) (xs : List ℕ) (x : ℕ) (ys : List ℕ) (b : ℕ)
    → Linked h a (xs ++ (x ∷ ys)) b
    → Linked h a xs x × Linked h x ys b
Linked-split h a [] x ys b l = ((l.0, l.1), l.2)
Linked-split h a (w ∷ xs) x ys b l =
    let (left, right) = Linked-split h w xs x ys b l.2 in ((l.0, l.1, left), right)

Distinct-prefix : (xs ys : List ℕ) → Distinct (xs ++ ys) → Distinct xs
Distinct-prefix [] ys d = tt
Distinct-prefix (x ∷ xs) ys d = (ground (arith, has-append x xs ys), Distinct-prefix xs ys d.1)

Distinct-suffix : (xs ys : List ℕ) → Distinct (xs ++ ys) → Distinct ys
Distinct-suffix [] ys d = d
Distinct-suffix (x ∷ xs) ys d = Distinct-suffix xs ys d.1

Distinct-apart : (xs ys : List ℕ) (p : ℕ) → Distinct (xs ++ ys) → p ∈ ys → p ∉ xs
Distinct-apart [] ys p d i = refl
Distinct-apart (x ∷ xs) ys p d i = ground (arith, has-append x xs ys, Distinct-apart xs ys p d.1)

Distinct-insert :
    (e : ℕ) (xs ys : List ℕ) → Distinct (xs ++ ys) → e ∉ (xs ++ ys) → Distinct (xs ++ (e ∷ ys))
Distinct-insert e [] ys d n = (n, d)
Distinct-insert e (x ∷ xs) ys d n = (
  ground (arith, has-append x xs ys, has-append x xs (e ∷ ys)),
  Distinct-insert e xs ys d.1 (ground arith),
)

-- `enqueue` in front of a node of a queue inserts just there.
enqueue_mid :
    (h : Links) (q elt : ℕ) (xs : List ℕ) (x : ℕ) (ys : List ℕ)
    → IsQueue h q (xs ++ (x ∷ ys))
    → elt ∉ (q ∷ xs ++ (x ∷ ys))
    → IsQueue (enqueue x elt h) q (xs ++ (elt ∷ x ∷ ys))
enqueue_mid h q elt xs x ys is out =
    let (left, right) = Linked-split h q xs x ys q is.chain in
    let parts = has-append elt xs (x ∷ ys) in
    let off = prev-mem h q xs x left in
    let apart = Distinct-apart (q ∷ xs) (x ∷ ys) in
    record {
      chain = rw (← append_assoc xs (elt ∷ []) (x ∷ ys)) (
          Linked-append (enqueue x elt h) q (xs ++ (elt ∷ [])) x ys q
            (Linked-enqueue h elt q xs x left (ground (arith, parts)) (ground (arith, parts))
              (ground (arith, apart x is.distinct)) (Distinct-prefix (q ∷ xs) (x ∷ ys) is.distinct))
            (Linked-frame h (enqueue x elt h) x ys q right
              (λ p i.
                next-enqueue_ne h x elt p (λ e. cc (apart p is.distinct i, off, e))
                  (λ e. ground (arith, parts)))
              (λ p i.
                prev-enqueue_ne h x elt p
                  (λ e. cc (i, e, (Distinct-suffix (q ∷ xs) (x ∷ ys) is.distinct).0))
                  (λ e. ground (arith, parts)))
              (prev-enqueue_ne h x elt q (λ e. ground (arith, apart x is.distinct))
                (λ e. ground arith))));
      distinct = Distinct-insert elt (q ∷ xs) (x ∷ ys) is.distinct out;
    }

-- The node at which the walk over `ys` stands, the sentinel behind the last.
abbrev front : List ℕ → ℕ → ℕ
front [] q = q
front (x ∷ xs) q = x

Linked-front : (h : Links) (a : ℕ) (xs : List ℕ) (b : ℕ) → Linked h a xs b → h.next a ≡ front xs b
Linked-front h a [] b l = l.0
Linked-front h a (x ∷ xs) b l = l.0

module _ (lte : ℕ → ℕ → Bool) (h : Links) (q elt : ℕ) where
  sort_loop-insert :
      (fuel : ℕ) (xs ys : List ℕ)
      → IsQueue h q (xs ++ ys)
      → elt ∉ (q ∷ xs ++ ys)
      → 0 ∉ ys
      → length ys < fuel
      → (g : Links) × (sort_loop fuel lte q elt (front ys q) h ≡ some g)
        × IsQueue g q (xs ++ insert lte elt ys)
  unfolding sort_loop insert
  sort_loop-insert zero xs ys is out nz fuel = absurd (omega arith)
  sort_loop-insert (suc f) xs [] is out nz fuel = (
    enqueue q elt h,
    ground arith,
    enqueue-IsQueue h q elt xs (rw append-nil at is) (rw append-nil at out),
  )
  sort_loop-insert (suc f) xs (y ∷ ys) is out nz fuel =
      let (left, right) = Linked-split h q xs y ys q is.chain in
      let ne : y ≢ q = ground (arith, Distinct-apart (q ∷ xs) (y ∷ ys) y is.distinct) in
      elim (Bool-cases (lte elt y)) [
        | inl le ↦ (enqueue y elt h, ground arith, rw le (enqueue_mid h q elt xs y ys is out))
        | inr gt ↦
            let (g, run, holds) =
              sort_loop-insert f (xs ++ (y ∷ [])) ys (rw (append_assoc xs (y ∷ []) ys) is)
                (rw (append_assoc xs (y ∷ []) ys) out) (ground arith) (omega arith) in
            (
              g,
              ground (arith, run, Linked-front h y ys q right),
              rw gt (rw (append_assoc xs (y ∷ []) (insert lte elt ys)) at holds),
            )
      ]

-- `enqueue_sort` returns, with one round more than the queue has nodes, and leaves the queue with `elt`
-- inserted in front of the first node that it does not exceed, the others in their order. No node of
-- the queue has address NULL, and `elt` is not in the queue.
pub enqueue_sort-insert :
    (lte : ℕ → ℕ → Bool) (h : Links) (q elt : ℕ) (xs : List ℕ) (fuel : ℕ)
    → IsQueue h q xs
    → elt ∉ (q ∷ xs)
    → 0 ∉ xs
    → length xs < fuel
    → (g : Links) × (enqueue_sort fuel q elt lte h ≡ some g) × IsQueue g q (insert lte elt xs)
unfolding enqueue_sort
enqueue_sort-insert lte h q elt xs fuel is out nz enough =
    rw (Linked-front h q xs q is.chain) (sort_loop-insert lte h q elt fuel [] xs is out nz enough)

-- A queue that is sorted by a total order is still sorted after `enqueue_sort`.
pub enqueue_sort-IsSorted :
    (lte : ℕ → ℕ → Bool) (h : Links) (q elt : ℕ) (xs : List ℕ) (fuel : ℕ)
    → ((a b : ℕ) → lte a b ≡ false → lte b a ≡ true)
    → IsQueue h q xs
    → elt ∉ (q ∷ xs)
    → 0 ∉ xs
    → length xs < fuel
    → IsSorted lte xs
    → (g : Links) × (ys : List ℕ) × (enqueue_sort fuel q elt lte h ≡ some g)
      × IsQueue g q ys
      × IsSorted lte ys
      × (length ys ≡ length xs + 1)
enqueue_sort-IsSorted lte h q elt xs fuel total is out nz enough sorted =
    let (g, run, holds) = enqueue_sort-insert lte h q elt xs fuel is out nz enough in
    (
      g,
      insert lte elt xs,
      run,
      holds,
      insert-IsSorted lte elt xs total sorted,
      length-insert lte elt xs,
    )
