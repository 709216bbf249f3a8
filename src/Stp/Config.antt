-- ===== src/Stp/Config.antt =====
-- The loop of stp.c that looks for the root port finds the best port that is not designated.
use ucas_coursework.Prelude.{
  ℕ, ◌≡◌, refl, true, false, Option, none, some, List, [], ◌∷◌, ◌++◌, arith, if◌then◌else◌,
  Bool-cases, inl, inr, All, All-append, All-mono, get_elem?, length, zero, suc,
}
use ucas_coursework.Stp.{StpPort, stp_port_is_designated, cmp_2_ports, preferred}
use ucas_coursework.Stp.Order.{cmp_2_ports_lem}

-- A port that is designated, or not preferred to `r`.
abbrev pub Behind : ℕ → StpPort → StpPort → Type 0
Behind switch_id r q = stp_port_is_designated switch_id q ≡ false → cmp_2_ports r q ≡ true

-- What the loop has found when it has seen `seen`: a port of the list, with its place.
abbrev pub RootPort : ℕ → List StpPort → Option (ℕ × StpPort) → Type 0
RootPort switch_id seen none = All (λ q. stp_port_is_designated switch_id q ≡ true) seen
RootPort switch_id seen (some (i, r)) =
    (get_elem? seen i ≡ some r)
    × (stp_port_is_designated switch_id r ≡ false)
    × All (Behind switch_id r) seen

at_end : (seen : List StpPort) (p : StpPort) → get_elem? (seen ++ (p ∷ [])) (length seen) ≡ some p
at_end [] p = refl
at_end (q ∷ seen) p = at_end seen p

still_at :
    (seen : List StpPort) (p r : StpPort) (j : ℕ)
    → get_elem? seen j ≡ some r
    → get_elem? (seen ++ (p ∷ [])) j ≡ some r
still_at [] p r j h = absurd (cc h)
still_at (q ∷ seen) p r zero h = h
still_at (q ∷ seen) p r (suc j) h = still_at seen p r j h

cmp_2_ports_refl : (p : StpPort) → cmp_2_ports p p ≡ true
unfolding cmp_2_ports
cmp_2_ports_refl p = ground arith

cmp_2_ports_trans :
    (p q r : StpPort) → cmp_2_ports p q ≡ true → cmp_2_ports q r ≡ true → cmp_2_ports p r ≡ true
cmp_2_ports_trans p q r a b =
    let (lex, config, total, trans, antisym) =
      cmp_2_ports_lem p q r
        (record { root_id = 0; root_path_cost = 0; switch_id = 0; port_id = 0 }) in
    trans a b

cmp_2_ports_flip : (p q : StpPort) → cmp_2_ports p q ≡ false → cmp_2_ports q p ≡ true
unfolding cmp_2_ports
cmp_2_ports_flip p q h = ground arith

module _ (sw : ℕ) (p : StpPort) (i : ℕ) where
  take-RootPort :
      (seen : List StpPort) (o : Option (ℕ × StpPort))
      → stp_port_is_designated sw p ≡ false
      → preferred p o ≡ true
      → i ≡ length seen
      → RootPort sw seen o
      → RootPort sw (seen ++ (p ∷ [])) (some (i, p))
  take-RootPort seen none n h at all = (
    rw at (at_end seen p),
    n,
    All-append (Behind sw p) seen (p ∷ [])
        (All-mono (λ q. stp_port_is_designated sw q ≡ true) (Behind sw p) seen
          (λ q d m. absurd (cc (d, m))) all)
        (λ _. cmp_2_ports_refl p, tt),
  )
  take-RootPort seen (some (j, r)) n h at (there, m, all) = (
    rw at (at_end seen p),
    n,
    All-append (Behind sw p) seen (p ∷ [])
        (All-mono (Behind sw r) (Behind sw p) seen (λ q b m'. cmp_2_ports_trans p r q h (b m')) all)
        (λ _. cmp_2_ports_refl p, tt),
  )

  skip-RootPort :
      (seen : List StpPort) (o : Option (ℕ × StpPort))
      → stp_port_is_designated sw p ≡ true
      → RootPort sw seen o
      → RootPort sw (seen ++ (p ∷ [])) o
  skip-RootPort seen none d all =
      All-append (λ q. stp_port_is_designated sw q ≡ true) seen (p ∷ []) all (d, tt)
  skip-RootPort seen (some (j, r)) d (there, m, all) = (
    still_at seen p r j there,
    m,
    All-append (Behind sw r) seen (p ∷ []) all (λ n. absurd (cc (d, n)), tt),
  )

  keep-RootPort :
      (seen : List StpPort) (o : Option (ℕ × StpPort))
      → preferred p o ≡ false
      → RootPort sw seen o
      → RootPort sw (seen ++ (p ∷ [])) o
  keep-RootPort seen none f all = absurd (cc f)
  keep-RootPort seen (some (j, r)) f (there, m, all) = (
    still_at seen p r j there,
    m,
    All-append (Behind sw r) seen (p ∷ []) all (λ n. cmp_2_ports_flip p r f, tt),
  )

  pub step-RootPort :
      (seen : List StpPort) (o : Option (ℕ × StpPort))
      → i ≡ length seen
      → RootPort sw seen o
      → RootPort sw
          (seen ++ (p ∷ []))
          (if stp_port_is_designated sw p then o else if preferred p o then some (i, p) else o)
  step-RootPort seen o at h = elim (Bool-cases (stp_port_is_designated sw p)) [
    | inl d ↦ rw d (skip-RootPort seen o d h)
    | inr n ↦ elim (Bool-cases (preferred p o)) [
      | inl better ↦ rw (n, better) (take-RootPort seen o n better at h)
      | inr worse ↦ rw (n, worse) (keep-RootPort seen o worse h)
    ]
  ]
