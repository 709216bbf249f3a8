-- ===== src/Prelude/Members.antt =====
-- Membership, distinctness and quantification over lists of native numbers, by recursion.
use Prim.Native.Nat.{ℕ, zero, suc}
use mathlib.Core.Path.{◌≡◌, refl, subst}
use mathlib.Core.Option.{some}
use mathlib.Core.Bool.{Bool, true, false, ◌||◌}
use mathlib.Core.List.{List, [], ◌∷◌, ◌++◌}
use native.Mathlib.Omega.{arith}
use ucas_coursework.Prelude.Tests.{◌==◌, some_inj}
use ucas_coursework.Prelude.Lists.{get_elem?, set, replicate}

abbrev pub All {ℓ κ} : {A : Type ℓ} → (A → Type κ) → List A → Type κ
All P [] = Unit
All P (x ∷ xs) = P x × All P xs

pub All-append {ℓ κ} :
    {A : Type ℓ} (P : A → Type κ) (xs ys : List A) → All P xs → All P ys → All P (xs ++ ys)
All-append P [] ys hx hy = hy
All-append P (x ∷ xs) ys hx hy = (hx.0, All-append P xs ys hx.1 hy)

pub All-mono {ℓ κ} :
    {A : Type ℓ} (P Q : A → Type κ) (xs : List A) → ((x : A) → P x → Q x) → All P xs → All Q xs
All-mono P Q [] f h = tt
All-mono P Q (x ∷ xs) f h = (f x h.0, All-mono P Q xs f h.1)

abbrev pub has : ℕ → List ℕ → Bool
has a [] = false
has a (x ∷ xs) = a == x || has a xs

infix 40 ◌∈◌ ◌∉◌
abbrev pub ◌∈◌ : ℕ → List ℕ → Type 0
a ∈ xs = has a xs ≡ true

abbrev pub ◌∉◌ : ℕ → List ℕ → Type 0
a ∉ xs = has a xs ≡ false

abbrev pub Distinct : List ℕ → Type 0
Distinct [] = Unit
Distinct (x ∷ xs) = (x ∉ xs) × Distinct xs

pub has-append : (a : ℕ) (xs ys : List ℕ) → has a (xs ++ ys) ≡ (has a xs || has a ys)
has-append a [] ys = refl
has-append a (x ∷ xs) ys = ground (arith, has-append a xs ys)

pub Distinct-snoc : (a : ℕ) (xs : List ℕ) → Distinct xs → a ∉ xs → Distinct (xs ++ (a ∷ []))
Distinct-snoc a [] d n = (refl, tt)
Distinct-snoc a (x ∷ xs) d n =
    (ground (arith, has-append x xs (a ∷ [])), Distinct-snoc a xs d.1 (ground arith))

pub has-snoc : (a : ℕ) (xs : List ℕ) (x : ℕ) → has a (xs ++ (x ∷ [])) ≡ (has a xs || a == x)
has-snoc a [] x = ground arith
has-snoc a (y ∷ xs) x = ground (arith, has-snoc a xs x)

pub All-get {ℓ κ} :
    {A : Type ℓ} (P : A → Type κ) (xs : List A) (i : ℕ) {x : A}
    → get_elem? xs i ≡ some x
    → All P xs
    → P x
All-get P [] i e h = absurd cc
All-get P (y ∷ xs) zero e h = subst P (some_inj e) h.0
All-get P (y ∷ xs) (suc i) e h = All-get P xs i e h.1

pub All-set {ℓ κ} :
    {A : Type ℓ} (P : A → Type κ) (xs : List A) (i : ℕ) {x : A}
    → P x
    → All P xs
    → All P (set xs i x)
All-set P [] i p h = tt
All-set P (y ∷ xs) zero p h = (p, h.1)
All-set P (y ∷ xs) (suc i) p h = (h.0, All-set P xs i p h.1)

pub All-replicate {ℓ κ} :
    {A : Type ℓ} (P : A → Type κ) (n : ℕ) {x : A} → P x → All P (replicate n x)
All-replicate P zero p = tt
All-replicate P (suc n) p = (p, All-replicate P n p)

-- `x` stands in the list.
pub data In {A : Type 0} (x : A) : List A → Type 0 where
  here : {xs : List A} → In x (x ∷ xs)
  there : {y : A} {xs : List A} → In x xs → In x (y ∷ xs)

pub All-In : {A : Type 0} (P : A → Type 0) (xs : List A) → ((x : A) → In x xs → P x) → All P xs
All-In P [] f = tt
All-In P (x ∷ xs) f = (f x here, All-In P xs (λ y i. f y (there i)))

pub get_elem?-set {ℓ} :
    {A : Type ℓ} (xs : List A) (i : ℕ) (x y : A)
    → get_elem? xs i ≡ some x
    → get_elem? (set xs i y) i ≡ some y
get_elem?-set [] i x y h = absurd (cc h)
get_elem?-set (z ∷ xs) zero x y h = refl
get_elem?-set (z ∷ xs) (suc i) x y h = get_elem?-set xs i x y h
