-- ===== src/Net/Ip/Prefix.antt =====
-- The route that `longest_prefix_match` selects.
use Prim.Native.Nat.{bit_and}
use ucas_coursework.Prelude.{
  ℕ, ◌≡◌, sym, true, false, Option, none, some, List, [], ◌∷◌, ◌++◌, arith, ◌&&◌, if◌then◌else◌,
  Bool-cases, inl, inr, append_assoc, append-nil, ==_iff, ◌<◌, ◌≤◌, All, All-mono,
}
use mathlib.Core.Path.{subst}
use ucas_coursework.Prelude.Greatest.{
  Greatest, Unselected, Below, AtMost, take-Greatest, skip-Greatest, Over, Under,
}
use ucas_coursework.Net.Ip.{RtEntry, matches, better, prefix_loop, longest_prefix_match}

abbrev mask_of : RtEntry → ℕ
mask_of e = e.mask

-- The best so far of the entries that the code takes for matching
abbrev Best : ℕ → List RtEntry → Option RtEntry → Type 0
Best dst rtable selected = Greatest (matches dst) mask_of rtable selected

module _ (dst : ℕ) (entry : RtEntry) where
  better-Over :
      (selected : Option RtEntry)
      → better selected entry ≡ true
      → Over (matches dst) mask_of selected entry
  better-Over none b = tt
  better-Over (some s) b = ground arith

  not_better-Under :
      (selected : Option RtEntry)
      → (matches dst entry && better selected entry) ≡ false
      → matches dst entry ≡ true
      → Under (matches dst) mask_of selected entry
  not_better-Under none b m = ground arith
  not_better-Under (some s) b m = ground arith

  step-Best :
      (selected : Option RtEntry) (seen : List RtEntry)
      → Best dst seen selected
      → Best dst
          (seen ++ (entry ∷ []))
          (if matches dst entry && better selected entry then some entry else selected)
  step-Best selected seen h = elim (Bool-cases (matches dst entry && better selected entry)) [
    | inl taken ↦ rw taken (
        take-Greatest (matches dst) mask_of entry selected seen (ground arith)
          (better-Over selected (ground arith)) h)
    | inr skipped ↦ rw skipped (
        skip-Greatest (matches dst) mask_of entry selected seen (not_better-Under selected skipped)
          h)
  ]

prefix_loop-Best :
    (dst : ℕ) (rest seen : List RtEntry) (selected : Option RtEntry)
    → Best dst seen selected
    → Best dst (seen ++ rest) (prefix_loop dst selected rest)
unfolding prefix_loop
prefix_loop-Best dst [] seen selected h = subst (λ l. Best dst l selected) (sym (append-nil seen)) h
prefix_loop-Best dst (entry ∷ rest) seen selected h =
    let next = if matches dst entry && better selected entry then some entry else selected in
    subst (λ l. Best dst l (prefix_loop dst next rest)) (append_assoc seen (entry ∷ []) rest)
      (prefix_loop-Best dst rest (seen ++ (entry ∷ [])) next (step-Best dst entry selected seen h))

-- The address and the destination of the entry are the same in the bits of the mask.
abbrev pub Agrees : ℕ → RtEntry → Type 0
Agrees dst e = bit_and dst e.mask ≡ bit_and e.dest e.mask

abbrev pub Disagrees : ℕ → RtEntry → Type 0
Disagrees dst e = ¬ Agrees dst e

-- An entry that agrees has a mask less than the bound, or not above it.
abbrev pub Shorter : ℕ → ℕ → RtEntry → Type 0
Shorter dst bound e = Agrees dst e → e.mask < bound

abbrev pub NotLonger : ℕ → ℕ → RtEntry → Type 0
NotLonger dst bound e = Agrees dst e → e.mask ≤ bound

-- The result is the first of the entries that agree whose mask is greatest, or there is none.
abbrev pub Longest : ℕ → List RtEntry → Option RtEntry → Type 0
Longest dst rtable none = All (Disagrees dst) rtable
Longest dst rtable (some e) =
    (before : List RtEntry) × (after : List RtEntry) × (rtable ≡ before ++ (e ∷ after))
    × Agrees dst e
    × All (Shorter dst e.mask) before
    × All (NotLonger dst e.mask) after

agrees : (dst : ℕ) (e : RtEntry) → matches dst e ≡ true → Agrees dst e
agrees dst e m = (==_iff _ _).0 m

matching : (dst : ℕ) (e : RtEntry) → Agrees dst e → matches dst e ≡ true
matching dst e a = (==_iff _ _).1 a

Best-Longest :
    (dst : ℕ) (rtable : List RtEntry) (o : Option RtEntry)
    → Best dst rtable o
    → Longest dst rtable o
Best-Longest dst rtable none h =
    All-mono (Unselected (matches dst) mask_of) (Disagrees dst) rtable
      (λ e n a. absurd (cc (n, matching dst e a))) h
Best-Longest dst rtable (some e) (before, after, split, m, below, at_most) = (
  before,
  after,
  split,
  agrees dst e m,
  All-mono (Below (matches dst) mask_of e.mask) (Shorter dst e.mask) before
      (λ x b a. b (matching dst x a)) below,
  All-mono (AtMost (matches dst) mask_of e.mask) (NotLonger dst e.mask) after
      (λ x b a. b (matching dst x a)) at_most,
)

-- `longest_prefix_match` selects, of the entries of the table whose destination is the address in the
-- bits of their mask, the first of those with the greatest mask, and none exactly where there is no
-- such entry.
pub longest_prefix_match-Longest :
    (dst : ℕ) (rtable : List RtEntry) → Longest dst rtable (longest_prefix_match dst rtable)
unfolding longest_prefix_match
longest_prefix_match-Longest dst rtable =
    Best-Longest dst rtable (longest_prefix_match dst rtable)
      (prefix_loop-Best dst rtable [] none tt)
