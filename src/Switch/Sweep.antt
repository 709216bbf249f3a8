-- ===== src/Switch/Sweep.antt =====
-- What the sweep of mac.c of Computer Networks/pr2-交换机转发实验 does to a bucket.
use ucas_coursework.Prelude.{
  ℕ, suc, ◌+◌, ◌≡◌, refl, ap, ◌∙◌, Bool, true, false, Option, none, some, List, [], ◌∷◌, length,
  ◌&&◌, if◌then◌else◌, on_some, Bool-cases, inl, inr, arith,
}
use ucas_coursework.Switch.{MacPortEntry, aged, drop_front, walk, walk_behind, sweep_chain, counted}

-- Whether every entry but the last is aged, and the last is not.
unfoldable pub one_left : ℕ → List MacPortEntry → Bool
one_left now [] = false
one_left now (e ∷ []) = if aged now e then false else true
one_left now (e ∷ f ∷ es) = aged now e && one_left now (f ∷ es)

unfoldable pub last_of : MacPortEntry → List MacPortEntry → MacPortEntry
last_of e [] = e
last_of e (f ∷ es) = last_of f es

walk-none : (now : ℕ) (e : MacPortEntry) (es : List MacPortEntry) → walk now (e ∷ es) ≡ none
unfolding walk
walk-none now e [] = refl
walk-none now e (f ∷ es) = elim (Bool-cases (aged now e)) [
  | inl old ↦ rw (old, walk-none now f es) refl
  | inr young ↦ rw (young, walk-none now f es) refl
]

walk_behind-counted :
    (now : ℕ) (p : ℕ × List MacPortEntry)
    → walk_behind (counted p) now ≡ on_some (λ q. some (counted q)) (walk_behind p now)
unfolding walk_behind walk
walk_behind-counted now (k, []) = refl
walk_behind-counted now (k, e ∷ []) =
    let count : k + 1 + 0 ≡ k + 0 + 1 = omega arith in ap (λ n. some (n, e ∷ [])) count
walk_behind-counted now (k, e ∷ f ∷ es) = rw (walk-none now f es) refl

counted-last :
    (now : ℕ) (o : Option (ℕ × List MacPortEntry))
    → on_some (λ p. walk_behind p now) (on_some (λ p. some (counted p)) o)
      ≡ on_some (λ q. some (counted q)) (on_some (λ p. walk_behind p now) o)
counted-last now none = refl
counted-last now (some p) = walk_behind-counted now p

counted-if :
    (b : Bool) (n : ℕ) (es : List MacPortEntry)
    → on_some {A = ℕ × List MacPortEntry} (λ q. some (counted q)) (if b then some (n, es) else none)
      ≡ (if b then some (suc n, es) else none)
counted-if true n es = let e : n + 1 ≡ suc n = omega arith in ap (λ k. some (k, es)) e
counted-if false n es = refl

-- The two loops together.
swept :
    (now : ℕ) (e : MacPortEntry) (es : List MacPortEntry)
    → on_some (λ p. walk_behind p now) (drop_front now e es)
      ≡ (if one_left now (e ∷ es) then some (length es, last_of e es ∷ []) else none)
unfolding drop_front walk_behind one_left last_of walk
swept now e [] = elim (Bool-cases (aged now e)) [
  | inl old ↦ rw old refl
  | inr young ↦ rw young refl
]
swept now e (f ∷ es) = elim (Bool-cases (aged now e)) [
  | inl old ↦ rw old (
      counted-last now (drop_front now f es)
      ∙ ap (on_some (λ q. some (counted q))) (swept now f es)
      ∙ counted-if (one_left now (f ∷ es)) (length es) (last_of f es ∷ []))
  | inr young ↦ rw (young, walk-none now f es) refl
]

-- A bucket with one entry is left as it is, however old the entry. With two or more, the sweep uses NULL
-- unless every entry but the last is aged and the last is not; then the last alone is left.
pub sweep_chain_lem :
    (now : ℕ) (e f : MacPortEntry) (es : List MacPortEntry)
    → (sweep_chain now (e ∷ []) ≡ some (0, e ∷ []))
      × (sweep_chain now (e ∷ f ∷ es) ≡ (
          if one_left now (e ∷ f ∷ es)
          then some (length (f ∷ es), last_of e (f ∷ es) ∷ [])
          else none))
unfolding sweep_chain
sweep_chain_lem now e f es = (refl, swept now e (f ∷ es))
