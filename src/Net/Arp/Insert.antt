-- ===== src/Net/Arp/Insert.antt =====
-- `arpcache_insert` of the ARP cache, where the address is known, where it is new, and where the table
-- is full.
use ucas_coursework.Prelude.{
  ℕ, ◌%◌, ◌≡◌, ◌≢◌, refl, true, false, Option, none, some, List, arith, set, length, Bool-cases,
  inl, inr,
}
use ucas_coursework.Net.Types.{Sent}
use ucas_coursework.Net.Arp.{
  ArpEntry, ArpCache, max_arp_size, lookup_in, arpcache_lookup, answer, arpcache_insert,
}
use ucas_coursework.Net.Arp.Table.{
  forget, all_valid, lookup_in-set, refreshed, known, last_free, insert_loop_lem,
  lookup_in-refreshed, refreshed-unknown, known-lookup_in, lookup_in-known, last_free-full,
  last_free-some,
}

-- An insertion that went well: what is found at `ip4` then, and at the other addresses.
pub record Inserted (ip4 : ℕ) (mac : List ℕ) (others : ℕ → Option (List ℕ))
    (cache cache' : ArpCache) : Type 0 where
  pub here : arpcache_lookup ip4 cache' ≡ some mac
  pub elsewhere : (other : ℕ) → other ≢ ip4 → arpcache_lookup other cache' ≡ others other
  pub requests : cache'.req_list ≡ (answer ip4 mac cache.req_list).1

module _ (now random ip4 : ℕ) (mac : List ℕ) (cache : ArpCache) where
  abbrev fresh : ArpEntry
  fresh = record { ip4 = ip4; mac = mac; added = now; valid = true }

  abbrev after : List ArpEntry → ArpCache
  after es = record { entries = es; req_list = (answer ip4 mac cache.req_list).1 }

  insert-found :
      known now ip4 mac cache.entries ≡ true
      → arpcache_insert now random ip4 mac cache
        ≡ some ((answer ip4 mac cache.req_list).0, after (refreshed now ip4 mac cache.entries))
  unfolding arpcache_insert
  insert-found k = rw (insert_loop_lem now ip4 mac cache.entries 0 false none, k)

  insert-placed :
      (p : ℕ)
      → known now ip4 mac cache.entries ≡ false
      → last_free now ip4 mac 0 none cache.entries ≡ some p
      → arpcache_insert now random ip4 mac cache
        ≡ some ((answer ip4 mac cache.req_list).0, after (set cache.entries (random % 32) fresh))
  unfolding arpcache_insert
  insert-placed p k f = rw (
    insert_loop_lem now ip4 mac cache.entries 0 false none,
    k,
    f,
    refreshed-unknown now ip4 mac cache.entries k,
  )

  insert-outside :
      known now ip4 mac cache.entries ≡ false
      → last_free now ip4 mac 0 none cache.entries ≡ none
      → arpcache_insert now random ip4 mac cache ≡ none
  unfolding arpcache_insert
  insert-outside k f = rw (insert_loop_lem now ip4 mac cache.entries 0 false none, k, f)

  -- Where the table knows `ip4`, `arpcache_insert` changes the hardware address that a lookup of `ip4`
  -- finds to the new one, whatever `rand` returns, and no lookup of another address.
  pub insert-known :
      (old : List ℕ)
      → arpcache_lookup ip4 cache ≡ some old
      → (out : List Sent) × (cache' : ArpCache) × (arpcache_insert now random ip4 mac cache
          ≡ some (out, cache'))
        × Inserted ip4 mac (λ other. arpcache_lookup other cache) cache cache'
  unfolding arpcache_lookup
  insert-known old found =
      let es = cache.entries in
      let (here, others) = lookup_in-refreshed now ip4 mac es in
      elim (Bool-cases (known now ip4 mac es)) [
        | inl k ↦ (
          (answer ip4 mac cache.req_list).0,
          after (refreshed now ip4 mac es),
          insert-found k,
          record { here = here k; elsewhere = others; requests = refl },
        )
        | inr n ↦ absurd (ground (arith, found, known-lookup_in now ip4 mac es n))
      ]

  -- Where the table of 32 entries does not know `ip4` and has a free entry, `arpcache_insert` puts the
  -- new address where `rand` says, so that a lookup of `ip4` finds it, and the entry that stood there,
  -- free or not, is forgotten: lookups of the others go as if it had been cleared.
  pub insert-new :
      length cache.entries ≡ max_arp_size
      → arpcache_lookup ip4 cache ≡ none
      → all_valid cache.entries ≡ false
      → (out : List Sent) × (cache' : ArpCache) × (arpcache_insert now random ip4 mac cache
          ≡ some (out, cache'))
        × Inserted ip4 mac (lookup_in (forget (random % 32) cache.entries)) cache cache'
  unfolding arpcache_lookup
  insert-new size unknown room =
      let es = cache.entries in
      let k = lookup_in-known now ip4 mac es unknown in
      let (p, f) = last_free-some now ip4 mac es 0 room in
      let (here, others) =
        lookup_in-set es (random % 32) ip4 now mac unknown (omega (arith, size)) in
      (
        (answer ip4 mac cache.req_list).0,
        after (set es (random % 32) fresh),
        insert-placed p k f,
        record { here = here; elsewhere = others; requests = refl },
      )

  -- Where all entries are valid and none is for `ip4`, `arpcache_insert` writes outside the table, at
  -- the index -1.
  pub insert-full :
      arpcache_lookup ip4 cache ≡ none
      → all_valid cache.entries ≡ true
      → arpcache_insert now random ip4 mac cache ≡ none
  unfolding arpcache_lookup
  insert-full unknown full =
      insert-outside (lookup_in-known now ip4 mac cache.entries unknown)
        (last_free-full now ip4 mac cache.entries 0 none full)
