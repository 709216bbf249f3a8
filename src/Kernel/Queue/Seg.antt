-- ===== src/Kernel/Queue/Seg.antt =====
-- What a heap of links stands for: segments that are linked both ways, and whole queues.
use ucas_coursework.Prelude.{ℕ, ◌≡◌, ◌≢◌, List, [], ◌∷◌, ◌++◌, arith, ◌∈◌, ◌∉◌, Distinct}
use ucas_coursework.Kernel.Queue.{Links, set_next, set_prev}

-- From `a` the nodes `xs`, in order, lead to `b`, and back.
abbrev pub Linked : Links → ℕ → List ℕ → ℕ → Type 0
Linked h a [] b = (h.next a ≡ b) × (h.prev b ≡ a)
Linked h a (x ∷ xs) b = (h.next a ≡ x) × (h.prev x ≡ a) × Linked h x xs b

-- The queue with sentinel `q` holds the nodes `xs`, first in front, each of them once.
pub record IsQueue (h : Links) (q : ℕ) (xs : List ℕ) : Type 0 where
  pub chain : Linked h q xs q
  pub distinct : Distinct (q ∷ xs)

-- `g` has the links of `h` at the nodes `zs`.
abbrev pub SameAt : List ℕ → Links → Links → Type 0
SameAt zs h g = (p : ℕ) → p ∈ zs → (g.next p ≡ h.next p) × (g.prev p ≡ h.prev p)

pub Linked-set_next :
    (h : Links) (p v a : ℕ) (xs : List ℕ) (b : ℕ)
    → Linked h a xs b
    → p ∉ (a ∷ xs)
    → Linked (set_next p v h) a xs b
Linked-set_next h p v a [] b l n = ground arith
Linked-set_next h p v a (x ∷ xs) b l n =
    (ground arith, l.1, Linked-set_next h p v x xs b l.2 (ground arith))

pub Linked-set_prev :
    (h : Links) (p v a : ℕ) (xs : List ℕ) (b : ℕ)
    → Linked h a xs b
    → p ∉ xs
    → p ≢ b
    → Linked (set_prev p v h) a xs b
Linked-set_prev h p v a [] b l n ne = ground arith
Linked-set_prev h p v a (x ∷ xs) b l n ne =
    (l.0, ground arith, Linked-set_prev h p v x xs b l.2 (ground arith) ne)

-- The node before the end is the start or one of the segment.
pub prev-mem : (h : Links) (a : ℕ) (xs : List ℕ) (b : ℕ) → Linked h a xs b → h.prev b ∈ (a ∷ xs)
prev-mem h a [] b l = ground arith
prev-mem h a (x ∷ xs) b l = ground (arith, prev-mem h x xs b l.2)

pub Linked-append :
    (h : Links) (a : ℕ) (xs : List ℕ) (x : ℕ) (ys : List ℕ) (b : ℕ)
    → Linked h a xs x
    → Linked h x ys b
    → Linked h a (xs ++ (x ∷ ys)) b
Linked-append h a [] x ys b l r = (l.0, l.1, r)
Linked-append h a (y ∷ xs) x ys b l r = (l.0, l.1, Linked-append h y xs x ys b l.2 r)

pub Linked-frame :
    (h g : Links) (a : ℕ) (xs : List ℕ) (b : ℕ)
    → Linked h a xs b
    → ((p : ℕ) → p ∈ (a ∷ xs) → g.next p ≡ h.next p)
    → ((p : ℕ) → p ∈ xs → g.prev p ≡ h.prev p)
    → g.prev b ≡ h.prev b
    → Linked g a xs b
Linked-frame h g a [] b l n p e = ground (arith, n a)
Linked-frame h g a (x ∷ xs) b l n p e = (
  ground (arith, n a),
  ground (arith, p x),
  Linked-frame h g x xs b l.2 (λ q i. n q (ground arith)) (λ q i. p q (ground arith)) e,
)

-- A queue survives whatever leaves its own nodes alone.
pub IsQueue-frame :
    (h g : Links) (q : ℕ) (xs : List ℕ) → IsQueue h q xs → SameAt (q ∷ xs) h g → IsQueue g q xs
IsQueue-frame h g q xs is same = record {
  chain =
      Linked-frame h g q xs q is.chain (λ p i. (same p i).0) (λ p i. (same p (ground arith)).1)
        ((same q (ground arith)).1);
  distinct = is.distinct;
}
