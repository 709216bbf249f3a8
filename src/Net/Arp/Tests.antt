-- ===== src/Net/Arp/Tests.antt =====
-- Runs of the ARP cache of arpcache.c, and its theorems, at small caches.
use ucas_coursework.Prelude.{
  ℕ, ◌≡◌, refl, Bool, true, false, none, some, List, [], ◌∷◌, arith, replicate, ◌%◌,
}
use ucas_coursework.Net.Types.{Iface, Sent, arp_request}
use ucas_coursework.Net.Arp.{
  CachedPkt, ArpReq, ArpEntry, ArpCache, arpcache_init, arpcache_lookup, lookup_in,
  arpcache_append_packet, arpcache_insert,
}
use ucas_coursework.Net.Arp.Table.{forget, all_valid}
use ucas_coursework.Net.Arp.Insert.{Inserted, insert-new}
use ucas_coursework.Net.Arp.Pending.{sweeps, sweeps_lem}

abbrev eth : Iface
eth = record { index = 2; mac = 1 ∷ 2 ∷ 3 ∷ 4 ∷ 5 ∷ 6 ∷ []; ip = 10; mask = 0 }

abbrev mac : List ℕ
mac = replicate 6 9

abbrev entry : ℕ → Bool → ArpEntry
entry ip4 valid = record { ip4 = ip4; mac = replicate 6 7; added = 0; valid = valid }

abbrev waiting_packet : CachedPkt
waiting_packet = record { packet = replicate 14 0; len = 14 }

abbrev request : ArpReq
request = record {
  iface = eth;
  ip4 = 77;
  sent = 3;
  retries = 1;
  cached_packets = waiting_packet ∷ [];
}

-- The entries for 40 and 41 are in use, the others are as given.
abbrev cache : Bool → ArpCache
cache valid = record {
  entries = entry 40 true ∷ entry 41 true ∷ replicate 30 (entry 42 valid);
  req_list = request ∷ [];
}

append_run :
    (arpcache_append_packet 3 eth 77 (replicate 14 0) 14 (record { entries = []; req_list = [] })).0
    ≡ arp_request eth 77 ∷ []
unfolding arpcache_append_packet
append_run = refl

init_run : arpcache_lookup 0 arpcache_init ≡ none
unfolding arpcache_lookup arpcache_init
init_run = refl

lookup_run : arpcache_lookup 41 (cache false) ≡ some (replicate 6 7)
unfolding arpcache_lookup
lookup_run = refl

unknown : arpcache_lookup 77 (cache false) ≡ none
unfolding arpcache_lookup
unknown = refl

free_slot : all_valid (cache false).entries ≡ false
unfolding all_valid
free_slot = refl

insert-new_example :
    (out : List Sent) × (cache' : ArpCache) × (arpcache_insert 5 64 77 mac (cache false)
      ≡ some (out, cache'))
    × Inserted 77 mac (lookup_in (forget (64 % 32) (cache false).entries)) (cache false) cache'
insert-new_example = insert-new 5 64 77 mac (cache false) refl unknown free_slot

unknown_full : arpcache_lookup 77 (cache true) ≡ none
unfolding arpcache_lookup
unknown_full = refl

no_free_slot : all_valid (cache true).entries ≡ true
unfolding all_valid
no_free_slot = refl

sweeps_lem_example : (sweeps (4 ∷ 5 ∷ 6 ∷ 7 ∷ 8 ∷ []) (cache true)).1.req_list ≡ []
sweeps_lem_example =
    sweeps_lem (4 ∷ 5 ∷ 6 ∷ 7 ∷ 8 ∷ []) 4 (cache true) refl
      (omega arith, (omega arith, (omega arith, (omega arith, (omega arith, tt)))))
      ((omega arith, omega arith), tt)
