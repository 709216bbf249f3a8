-- ===== src/Net/Arp.antt =====
-- arpcache.c of Computer Networks/pr11-网络传输机制实验三: the table from IP to hardware addresses, and the
-- packets that wait for an answer. Each operation holds the mutex, so it is one step on the state. The
-- clock and `rand` are arguments; what is sent is the first part of a result.
pub mod Table
pub mod Insert
pub mod Pending
mod Tests
use ucas_coursework.Prelude.{
  ℕ, zero, suc, ◌+◌, ◌-◌, ◌%◌, Bool, true, false, Option, none, some, List, [], ◌∷◌, ◌++◌, ◌==◌,
  ltb, leb, ◌&&◌, ◌||◌, not, if◌then◌else◌, set, length, replicate,
}
use ucas_coursework.Net.Types.{Iface, overwrite, Sent, frame, arp_request, icmp}

-- `struct cached_pkt`
pub record CachedPkt : Type 0 where
  pub packet : List ℕ
  pub len : ℕ

-- `struct arp_req`
pub record ArpReq : Type 0 where
  pub iface : Iface
  pub ip4 : ℕ
  pub sent : ℕ
  pub retries : ℕ
  pub cached_packets : List CachedPkt

-- `struct arp_cache_entry`
pub record ArpEntry : Type 0 where
  pub ip4 : ℕ
  pub mac : List ℕ
  pub added : ℕ
  pub valid : Bool

-- `arpcache_t`
pub record ArpCache : Type 0 where
  pub entries : List ArpEntry
  pub req_list : List ArpReq

abbrev pub max_arp_size : ℕ
max_arp_size = 32

abbrev pub arp_entry_timeout : ℕ
arp_entry_timeout = 15

abbrev pub arp_request_max_retries : ℕ
arp_request_max_retries = 5

-- `icmp_send_packet(_, _, ICMP_DEST_UNREACH, ICMP_HOST_UNREACH)`
abbrev pub host_unreachable : CachedPkt → Sent
host_unreachable p = icmp p.packet p.len 3 1

unfoldable pub arpcache_init : ArpCache
arpcache_init = record {
  entries =
      replicate max_arp_size (record { ip4 = 0; mac = replicate 6 0; added = 0; valid = false });
  req_list = [];
}

-- Whether an entry answers for `ip4`.
abbrev pub hit : ℕ → ArpEntry → Bool
hit ip4 e = e.valid && e.ip4 == ip4

unfoldable pub lookup_in : List ArpEntry → ℕ → Option (List ℕ)
lookup_in [] ip4 = none
lookup_in (e ∷ es) ip4 = if hit ip4 e then some e.mac else lookup_in es ip4

unfoldable pub arpcache_lookup : ℕ → ArpCache → Option (List ℕ)
unfolding lookup_in
arpcache_lookup ip4 cache = lookup_in cache.entries ip4

-- `req_entry->iface->index == iface->index && req_entry->ip4 == ip4`
abbrev pub same_request : Iface → ℕ → ArpReq → Bool
same_request iface ip4 r = r.iface.index == iface.index && r.ip4 == ip4

unfoldable pub has_request : Iface → ℕ → List ArpReq → Bool
has_request iface ip4 [] = false
has_request iface ip4 (r ∷ rs) = same_request iface ip4 r || has_request iface ip4 rs

-- The packet goes to the back of the first such request.
unfoldable pub append_to : Iface → ℕ → CachedPkt → List ArpReq → List ArpReq
append_to iface ip4 p [] = []
append_to iface ip4 p (r ∷ rs) =
    if same_request iface ip4 r
    then record r { cached_packets = r.cached_packets ++ (p ∷ []) } ∷ rs
    else r ∷ append_to iface ip4 p rs

unfoldable pub arpcache_append_packet : ℕ → Iface → ℕ → List ℕ → ℕ → ArpCache → List Sent × ArpCache
unfolding has_request append_to
arpcache_append_packet now iface ip4 packet len cache =
    let p : CachedPkt = record { packet = packet; len = len } in
    if has_request iface ip4 cache.req_list
    then ([], record cache { req_list = append_to iface ip4 p cache.req_list })
    else (
      arp_request iface ip4 ∷ [],
      record cache {
        req_list =
            record { iface = iface; ip4 = ip4; sent = now; retries = 1; cached_packets = p ∷ [] }
            ∷ cache.req_list;
      },
    )

-- The loop of `arpcache_insert` from entry `i` on: the entries, `found`, and `pos`, whose -1 is `none`.
unfoldable pub insert_loop :
    ℕ → ℕ → List ℕ → ℕ → Bool → Option ℕ → List ArpEntry → List ArpEntry × Bool × Option ℕ
insert_loop now ip4 mac i found pos [] = ([], found, pos)
insert_loop now ip4 mac i found pos (e ∷ es) =
    let (es', found', pos') =
      insert_loop now ip4 mac (i + 1) (found || hit ip4 e) (if e.valid then pos else some i) es in
    ((if hit ip4 e then record e { mac = mac; added = now } else e) ∷ es', found', pos')

-- The entry that is written where `ip4` was not found: `none` is the write to `entries[-1]`.
abbrev pub place : ℕ → Option ℕ → ArpEntry → List ArpEntry → Option (List ArpEntry)
place random none e es = none
place random (some pos) e es = some (set es (random % max_arp_size) e)

abbrev pub placed : ℕ → ArpEntry → List ArpEntry × Bool × Option ℕ → Option (List ArpEntry)
placed random e (es, true, pos) = some es
placed random e (es, false, pos) = place random pos e es

-- The packets of a request, with the two hardware addresses filled in.
unfoldable pub flush : Iface → List ℕ → List CachedPkt → List Sent
flush iface mac [] = []
flush iface mac (p ∷ ps) =
    frame iface (overwrite 6 iface.mac (overwrite 0 mac p.packet)) p.len ∷ flush iface mac ps

-- The first request for `ip4` is answered and taken off.
unfoldable pub answer : ℕ → List ℕ → List ArpReq → List Sent × List ArpReq
unfolding flush
answer ip4 mac [] = ([], [])
answer ip4 mac (r ∷ rs) =
    let (sent, rest) = answer ip4 mac rs in
    if r.ip4 == ip4 then (flush r.iface mac r.cached_packets, rs) else (sent, r ∷ rest)

abbrev pub with_entries :
    List ℕ → ℕ → ArpCache → Option (List ArpEntry) → Option (List Sent × ArpCache)
with_entries mac ip4 cache none = none
with_entries mac ip4 cache (some es) =
    let (sent, rest) = answer ip4 mac cache.req_list in
    some (sent, record { entries = es; req_list = rest })

-- `none` means a write outside the table.
unfoldable pub arpcache_insert : ℕ → ℕ → ℕ → List ℕ → ArpCache → Option (List Sent × ArpCache)
unfolding insert_loop answer
arpcache_insert now random ip4 mac cache = with_entries mac ip4 cache (
    placed random (record { ip4 = ip4; mac = mac; added = now; valid = true })
      (insert_loop now ip4 mac 0 false none cache.entries))

-- The first loop of `arpcache_sweep`; the difference of the times is signed in the source.
unfoldable pub expire : ℕ → List ArpEntry → List ArpEntry
expire now [] = []
expire now (e ∷ es) =
    (if e.valid && leb (e.added + arp_entry_timeout) now then record e { valid = false } else e)
    ∷ expire now es

-- Its second loop: the requests sent again, the packets given up, and the requests left.
unfoldable pub retry : ℕ → List ArpReq → List Sent × List CachedPkt × List ArpReq
retry now [] = ([], [], [])
retry now (r ∷ rs) =
    let (sent, dropped, rest) = retry now rs in
    if ltb now (r.sent + 1)
    then (sent, dropped, r ∷ rest)
    else if ltb r.retries arp_request_max_retries
    then (arp_request r.iface r.ip4 ∷ sent, dropped, record r { retries = r.retries + 1 } ∷ rest)
    else (sent, r.cached_packets ++ dropped, rest)

-- Its third loop.
unfoldable pub give_up : List CachedPkt → List Sent
give_up [] = []
give_up (p ∷ ps) = host_unreachable p ∷ give_up ps

-- One round of `arpcache_sweep`
unfoldable pub arpcache_sweep : ℕ → ArpCache → List Sent × ArpCache
unfolding expire retry give_up
arpcache_sweep now cache =
    let (sent, dropped, rest) = retry now cache.req_list in
    (sent ++ give_up dropped, record { entries = expire now cache.entries; req_list = rest })

unfoldable pub arpcache_destroy : ArpCache → ArpCache
arpcache_destroy cache = record cache { req_list = [] }
