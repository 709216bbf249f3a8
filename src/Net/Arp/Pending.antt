-- ===== src/Net/Arp/Pending.antt =====
-- The packets that wait in the ARP cache: queued in order, sent when the answer comes, given up after
-- five requests.
use ucas_coursework.Prelude.{
  ℕ, zero, suc, ◌+◌, ◌≤◌, ◌≡◌, refl, sym, ap, ◌∙◌, Bool, true, false, List, [], ◌∷◌, ◌++◌, arith,
  ◌==◌, ltb, leb, ◌&&◌, if◌then◌else◌, length, Bool-cases, inl, inr, All, All-mono,
}
use mathlib.Core.Path.{subst}
use ucas_coursework.Net.Types.{Iface, Sent, arp_request}
use ucas_coursework.Net.Arp.{
  CachedPkt, ArpReq, ArpCache, same_request, has_request, append_to, arpcache_append_packet, retry,
  arpcache_sweep, give_up,
}

-- The packets that wait for `ip4` at an interface, as its first request has them.
unfoldable pub pending : Iface → ℕ → List ArpReq → List CachedPkt
pending iface ip4 [] = []
pending iface ip4 (r ∷ rs) =
    if same_request iface ip4 r then r.cached_packets else pending iface ip4 rs

append_to-pending :
    (iface : Iface) (ip4 : ℕ) (p : CachedPkt) (rs : List ArpReq)
    → has_request iface ip4 rs ≡ true
    → (pending iface ip4 (append_to iface ip4 p rs) ≡ pending iface ip4 rs ++ (p ∷ []))
      × ((i : Iface) (ip : ℕ)
          → ((i.index == iface.index) && (ip == ip4)) ≡ false
          → pending i ip (append_to iface ip4 p rs) ≡ pending i ip rs)
unfolding pending append_to has_request
append_to-pending iface ip4 p [] h = absurd (ground arith)
append_to-pending iface ip4 p (r ∷ rs) h = elim (Bool-cases (same_request iface ip4 r)) [
  | inl s ↦ (ground arith, λ i ip ne. ground arith)
  | inr n ↦
      let (here, others) = append_to-pending iface ip4 p rs (ground arith) in
      (ground (arith, here), λ i ip ne. ground (arith, others i ip ne))
]

pending-none :
    (iface : Iface) (ip4 : ℕ) (rs : List ArpReq)
    → has_request iface ip4 rs ≡ false
    → pending iface ip4 rs ≡ []
unfolding pending has_request
pending-none iface ip4 [] h = refl
pending-none iface ip4 (r ∷ rs) h = ground (arith, pending-none iface ip4 rs)

-- `arpcache_append_packet` puts the packet behind those that wait for the same address at the same
-- interface and leaves all others; it sends an ARP request exactly where there was none to wait for.
pub append_packet_lem :
    (now : ℕ) (iface : Iface) (ip4 : ℕ) (packet : List ℕ) (len : ℕ) (cache : ArpCache)
    → (out : List Sent) × (cache' : ArpCache) × (arpcache_append_packet now iface ip4 packet len
          cache
        ≡ (out, cache'))
      × (out ≡ (if has_request iface ip4 cache.req_list then [] else arp_request iface ip4 ∷ []))
      × (pending iface ip4 cache'.req_list
          ≡ pending iface ip4 cache.req_list ++ (record { packet = packet; len = len } ∷ []))
      × ((i : Iface) (ip : ℕ)
          → ((i.index == iface.index) && (ip == ip4)) ≡ false
          → pending i ip cache'.req_list ≡ pending i ip cache.req_list)
unfolding arpcache_append_packet
append_packet_lem now iface ip4 packet len cache =
    elim (Bool-cases (has_request iface ip4 cache.req_list)) [
      | inl h ↦
          let (here, others) = append_to-pending iface ip4 p cache.req_list h in
          rw h (
            [],
            record cache { req_list = append_to iface ip4 p cache.req_list },
            refl,
            refl,
            here,
            others,
          )
      | inr n ↦ rw n (
        arp_request iface ip4 ∷ [],
        record cache { req_list = fresh ∷ cache.req_list },
        refl,
        refl,
        unfold pending in ground (arith, pending-none iface ip4 cache.req_list n),
        λ i ip ne. unfold pending in ground arith,
      )
    ]
  where
    p : CachedPkt
    p = record { packet = packet; len = len }

    fresh : ArpReq
    fresh = record { iface = iface; ip4 = ip4; sent = now; retries = 1; cached_packets = p ∷ [] }

-- A request that is given up in a round at `now`: its time has come and it was sent five times.
abbrev pub given_up : ℕ → ArpReq → Bool
given_up now r = leb (r.sent + 1) now && leb 5 r.retries

-- One that is sent again is counted.
abbrev pub counted : ℕ → ArpReq → ArpReq
counted now r = if leb (r.sent + 1) now then record r { retries = r.retries + 1 } else r

unfoldable pub dropped_at : ℕ → List ArpReq → List CachedPkt
dropped_at now [] = []
dropped_at now (r ∷ rs) = (if given_up now r then r.cached_packets else []) ++ dropped_at now rs

unfoldable pub kept_at : ℕ → List ArpReq → List ArpReq
kept_at now [] = []
kept_at now (r ∷ rs) = if given_up now r then kept_at now rs else counted now r ∷ kept_at now rs

retry_lem :
    (now : ℕ) (rs : List ArpReq)
    → ((retry now rs).1 ≡ dropped_at now rs) × ((retry now rs).2 ≡ kept_at now rs)
unfolding retry dropped_at kept_at
retry_lem now [] = (refl, refl)
retry_lem now (r ∷ rs) =
    let (dropped, kept) = retry_lem now rs in
    elim (Bool-cases (ltb now (r.sent + 1))) [
      | inl early ↦
          let not_due : leb (r.sent + 1) now ≡ false = ground arith in
          rw (early, not_due) (dropped, ap (λ l. r ∷ l) kept)
      | inr due ↦
          let is_due : leb (r.sent + 1) now ≡ true = ground arith in
          elim (Bool-cases (ltb r.retries 5)) [
            | inl again ↦
                let more : leb 5 r.retries ≡ false = ground arith in
                rw (due, is_due, again, more)
                  (dropped, ap (λ l. record r { retries = r.retries + 1 } ∷ l) kept)
            | inr last ↦
                let no_more : leb 5 r.retries ≡ true = ground arith in
                rw (due, is_due, last, no_more) (ap (λ l. r.cached_packets ++ l) dropped, kept)
          ]
    ]

-- Rounds of the sweep, at these times.
unfoldable pub sweeps : List ℕ → ArpCache → List Sent × ArpCache
sweeps [] cache = ([], cache)
sweeps (now ∷ times) cache =
    let (sent, cache') = arpcache_sweep now cache in
    let (more, last) = sweeps times cache' in (sent ++ more, last)

-- A round at `now` gives up the requests whose second has passed and that have been sent five times: an
-- ICMP message goes out for each of their packets, in order, and the other requests stay in order,
-- those whose second has passed counted as sent once more.
pub arpcache_sweep_lem :
    (now : ℕ) (cache : ArpCache)
    → (requests : List Sent) × ((arpcache_sweep now cache).0
        ≡ requests ++ give_up (dropped_at now cache.req_list))
      × ((arpcache_sweep now cache).1.req_list ≡ kept_at now cache.req_list)
unfolding arpcache_sweep
arpcache_sweep_lem now cache =
    let (dropped, kept) = retry_lem now cache.req_list in
    ((retry now cache.req_list).0, rw dropped, kept)

-- A request that has been sent often enough to be given up within `n` rounds, all after `sent`.
abbrev pub Ends : ℕ → ℕ → ArpReq → Type 0
Ends n start r = (6 ≤ r.retries + n) × (r.sent + 1 ≤ start)

kept_at-Ends :
    (n now start : ℕ) (rs : List ArpReq)
    → start ≤ now
    → All (Ends (suc n) start) rs
    → All (Ends n start) (kept_at now rs)
unfolding kept_at
kept_at-Ends n now start [] le h = tt
kept_at-Ends n now start (r ∷ rs) le h = elim (Bool-cases (given_up now r)) [
  | inl gone ↦ rw gone (kept_at-Ends n now start rs le h.1)
  | inr stays ↦
      let due : leb (r.sent + 1) now ≡ true = ground (arith, h.0.1) in
      rw stays (rw due (omega (arith, h.0.0), h.0.1), kept_at-Ends n now start rs le h.1)
]

kept_at-nil :
    (now start : ℕ) (rs : List ArpReq) → start ≤ now → All (Ends 1 start) rs → kept_at now rs ≡ []
unfolding kept_at
kept_at-nil now start [] le h = refl
kept_at-nil now start (r ∷ rs) le h =
    let gone : given_up now r ≡ true = ground (arith, h.0.0, h.0.1) in
    rw gone (kept_at-nil now start rs le h.1)

sweeps-nil :
    (times : List ℕ) (n start : ℕ) (cache : ArpCache)
    → All (λ t. start ≤ t) times
    → length times ≡ suc n
    → All (Ends (suc n) start) cache.req_list
    → (sweeps times cache).1.req_list ≡ []
unfolding sweeps
sweeps-nil [] n start cache late l h = absurd (omega (arith, l))
sweeps-nil (now ∷ []) zero start cache late l h =
    (arpcache_sweep_lem now cache).2 ∙ kept_at-nil now start cache.req_list late.0 h
sweeps-nil (now ∷ t ∷ times) zero start cache late l h = absurd (omega (arith, l))
sweeps-nil (now ∷ times) (suc n) start cache late l h =
    sweeps-nil times n start (arpcache_sweep now cache).1 late.1 (omega (arith, l)) (
      subst (λ rs. All (Ends (suc n) start) rs) (sym ((arpcache_sweep_lem now cache).2))
        (kept_at-Ends (suc n) now start cache.req_list late.0 h))

-- No packet waits for ever: five rounds of the sweep, each a second or more after the requests were
-- made, leave no request of those that have been sent at least once.
pub sweeps_lem :
    (times : List ℕ) (start : ℕ) (cache : ArpCache)
    → length times ≡ 5
    → All (λ t. start ≤ t) times
    → All (λ r. (1 ≤ r.retries) × (r.sent + 1 ≤ start)) cache.req_list
    → (sweeps times cache).1.req_list ≡ []
sweeps_lem times start cache five late h = sweeps-nil times 4 start cache late five (
    All-mono (λ r. (1 ≤ r.retries) × (r.sent + 1 ≤ start)) (Ends 5 start) cache.req_list
      (λ r e. (omega (arith, e.0), e.1)) h)
