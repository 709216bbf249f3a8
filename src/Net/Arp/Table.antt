-- ===== src/Net/Arp/Table.antt =====
-- What a lookup in the ARP cache finds after an address has been inserted.
use ucas_coursework.Prelude.{
  ℕ, zero, suc, ◌+◌, ◌<◌, ◌≡◌, ◌≢◌, refl, ap, Bool, true, false, Option, none, some, List, [], ◌∷◌,
  arith, ◌&&◌, ◌||◌, if◌then◌else◌, set, length, Bool-cases, inl, inr,
}
use ucas_coursework.Net.Arp.{ArpEntry, hit, lookup_in, insert_loop}

-- An entry that answers for no address.
abbrev pub cleared : ArpEntry → ArpEntry
cleared e = record e { valid = false }

-- The entries with the one at `i` cleared.
unfoldable pub forget : ℕ → List ArpEntry → List ArpEntry
forget i [] = []
forget zero (e ∷ es) = cleared e ∷ es
forget (suc i) (e ∷ es) = e ∷ forget i es

unfoldable pub all_valid : List ArpEntry → Bool
all_valid [] = true
all_valid (e ∷ es) = e.valid && all_valid es

-- The written entry answers, unless one in front of it does; the others answer as if the entry that
-- stood there had been cleared.
pub lookup_in-set :
    (es : List ArpEntry) (i ip4 now : ℕ) (mac : List ℕ)
    → lookup_in es ip4 ≡ none
    → i < length es
    → (lookup_in (set es i (record { ip4 = ip4; mac = mac; added = now; valid = true })) ip4
        ≡ some mac)
      × ((other : ℕ)
          → other ≢ ip4
          → lookup_in (set es i (record { ip4 = ip4; mac = mac; added = now; valid = true })) other
            ≡ lookup_in (forget i es) other)
unfolding lookup_in forget
lookup_in-set [] i ip4 now mac out lt = absurd (omega arith)
lookup_in-set (e ∷ es) zero ip4 now mac out lt = (ground arith, λ other ne. ground arith)
lookup_in-set (e ∷ es) (suc i) ip4 now mac out lt = elim (Bool-cases (hit ip4 e)) [
  | inl h ↦ absurd (ground (arith, out))
  | inr n ↦
      let (here, others) = lookup_in-set es i ip4 now mac (ground arith) (omega arith) in
      (ground (arith, here), λ other ne. ground (arith, others other ne))
]

module _ (now ip4 : ℕ) (mac : List ℕ) where
  -- The entries after the loop.
  unfoldable pub refreshed : List ArpEntry → List ArpEntry
  refreshed [] = []
  refreshed (e ∷ es) = (if hit ip4 e then record e { mac = mac; added = now } else e) ∷ refreshed es

  unfoldable pub known : List ArpEntry → Bool
  known [] = false
  known (e ∷ es) = hit ip4 e || known es

  unfoldable pub last_free : ℕ → Option ℕ → List ArpEntry → Option ℕ
  last_free i pos [] = pos
  last_free i pos (e ∷ es) = last_free (i + 1) (if e.valid then pos else some i) es

  pub insert_loop_lem :
      (es : List ArpEntry) (i : ℕ) (found : Bool) (pos : Option ℕ)
      → insert_loop now ip4 mac i found pos es
        ≡ (refreshed es, found || known es, last_free i pos es)
  unfolding insert_loop refreshed known last_free
  insert_loop_lem [] i true pos = refl
  insert_loop_lem [] i false pos = refl
  insert_loop_lem (e ∷ es) i found pos =
      rw (insert_loop_lem es (i + 1) (found || hit ip4 e) (if e.valid then pos else some i)) (
        ap
          (λ b. (
            (if hit ip4 e then record e { mac = mac; added = now } else e) ∷ refreshed es,
            b,
            last_free (i + 1) (if e.valid then pos else some i) es,
          ))
          (ground arith))

  pub lookup_in-refreshed :
      (es : List ArpEntry)
      → (known es ≡ true → lookup_in (refreshed es) ip4 ≡ some mac)
        × ((other : ℕ) → other ≢ ip4 → lookup_in (refreshed es) other ≡ lookup_in es other)
  unfolding lookup_in refreshed known
  lookup_in-refreshed [] = (λ e. ground arith, λ other ne. refl)
  lookup_in-refreshed (e ∷ es) =
      let (here, others) = lookup_in-refreshed es in
      (λ k. ground (arith, here), λ other ne. ground (arith, others other ne))

  pub refreshed-unknown : (es : List ArpEntry) → known es ≡ false → refreshed es ≡ es
  unfolding refreshed known
  refreshed-unknown [] n = refl
  refreshed-unknown (e ∷ es) n =
      let miss : hit ip4 e ≡ false = ground arith in
      rw miss (ap (λ l. e ∷ l) (refreshed-unknown es (ground arith)))

  pub known-lookup_in : (es : List ArpEntry) → known es ≡ false → lookup_in es ip4 ≡ none
  unfolding known lookup_in
  known-lookup_in [] n = refl
  known-lookup_in (e ∷ es) n = ground (arith, known-lookup_in es)

  pub lookup_in-known : (es : List ArpEntry) → lookup_in es ip4 ≡ none → known es ≡ false
  unfolding known lookup_in
  lookup_in-known [] n = refl
  lookup_in-known (e ∷ es) n = ground (arith, lookup_in-known es)

  pub last_free-full :
      (es : List ArpEntry) (i : ℕ) (pos : Option ℕ) → all_valid es ≡ true → last_free i pos es ≡ pos
  unfolding last_free all_valid
  last_free-full [] i pos f = refl
  last_free-full (e ∷ es) i pos f =
      let valid : e.valid ≡ true = ground arith in
      rw valid (last_free-full es (i + 1) pos (ground arith))

  last_free-kept : (es : List ArpEntry) (i p : ℕ) → (q : ℕ) × (last_free i (some p) es ≡ some q)
  unfolding last_free
  last_free-kept [] i p = (p, refl)
  last_free-kept (e ∷ es) i p = elim (Bool-cases e.valid) [
    | inl valid ↦ rw valid (last_free-kept es (i + 1) p)
    | inr free ↦ rw free (last_free-kept es (i + 1) i)
  ]

  pub last_free-some :
      (es : List ArpEntry) (i : ℕ) → all_valid es ≡ false → (q : ℕ) × (last_free i none es ≡ some q)
  unfolding last_free all_valid
  last_free-some [] i f = absurd (ground arith)
  last_free-some (e ∷ es) i f = elim (Bool-cases e.valid) [
    | inl valid ↦ rw valid (last_free-some es (i + 1) (ground arith))
    | inr free ↦ rw free (last_free-kept es (i + 1) i)
  ]
