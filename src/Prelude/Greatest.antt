-- ===== src/Prelude/Greatest.antt =====
-- The first of the greatest elements of a list among those that a test selects, found by going through
-- the list once.
use Prim.Native.Nat.{ℕ, ◌≤◌, ◌<◌}
use mathlib.Core.Path.{◌≡◌, refl, ap, ◌∙◌}
use mathlib.Core.Bool.{Bool, true, false}
use mathlib.Core.Logic.{inl, inr}
use mathlib.Core.Option.{Option, none, some}
use mathlib.Core.List.{List, [], ◌∷◌, ◌++◌, append_assoc}
use native.Mathlib.Omega.{arith}
use ucas_coursework.Prelude.Tests.{Bool-cases}
use ucas_coursework.Prelude.Members.{All, All-append, All-mono}

module _ {A : Type 0} (sel : A → Bool) (key : A → ℕ) where
  abbrev pub Unselected : A → Type 0
  Unselected x = sel x ≡ false

  abbrev pub Below : ℕ → A → Type 0
  Below bound x = sel x ≡ true → key x < bound

  abbrev pub AtMost : ℕ → A → Type 0
  AtMost bound x = sel x ≡ true → key x ≤ bound

  -- `none` where nothing is selected.
  abbrev pub Greatest : List A → Option A → Type 0
  Greatest xs none = All Unselected xs
  Greatest xs (some x) =
      (before : List A) × (after : List A) × (xs ≡ before ++ (x ∷ after))
      × (sel x ≡ true)
      × All (Below (key x)) before
      × All (AtMost (key x)) after

  -- The element is above the best so far, or not above it.
  abbrev pub Over : Option A → A → Type 0
  Over none x = Unit
  Over (some best) x = key best < key x

  abbrev pub Under : Option A → A → Type 0
  Under none x = ⊥
  Under (some best) x = key x ≤ key best

  seen-Below :
      (x : A) (best : Option A) (seen : List A)
      → Over best x
      → Greatest seen best
      → All (Below (key x)) seen
  seen-Below x none seen over h =
      All-mono Unselected (Below (key x)) seen (λ y n m. absurd (cc (n, m))) h
  seen-Below x (some b) seen over (before, after, e, m, below, at_most) = rw e (
      All-append (Below (key x)) before (b ∷ after)
        (All-mono (Below (key b)) (Below (key x)) before (λ y l m'. ground (arith, l m')) below)
        (
          λ m'. over,
          All-mono (AtMost (key b)) (Below (key x)) after (λ y l m'. ground (arith, l m')) at_most,
        ))

  pub take-Greatest :
      (x : A) (best : Option A) (seen : List A)
      → sel x ≡ true
      → Over best x
      → Greatest seen best
      → Greatest (seen ++ (x ∷ [])) (some x)
  take-Greatest x best seen m over h = (seen, [], refl, m, seen-Below x best seen over h, tt)

  pub skip-Greatest :
      (x : A) (best : Option A) (seen : List A)
      → (sel x ≡ true → Under best x)
      → Greatest seen best
      → Greatest (seen ++ (x ∷ [])) best
  skip-Greatest x none seen under h =
      All-append Unselected seen (x ∷ []) h
        (elim (Bool-cases (sel x)) [ inl m ↦ absurd (under m) | inr n ↦ n ], tt)
  skip-Greatest x (some b) seen under (before, after, e, m, below, at_most) = (
    before,
    after ++ (x ∷ []),
    ap (λ l. l ++ (x ∷ [])) e ∙ append_assoc before (b ∷ after) (x ∷ []),
    m,
    below,
    All-append (AtMost (key b)) after (x ∷ []) at_most (under, tt),
  )
