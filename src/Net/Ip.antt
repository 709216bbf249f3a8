-- ===== src/Net/Ip.antt =====
-- rtable.c, ip.c, and the sending and handling of arp.c of Computer Networks/pr11-网络传输机制实验三: the
-- routing table and the way of an IP packet through the router. A packet is its list of bytes, with
-- 14 bytes of Ethernet header in front of the IP header.
pub mod Prefix
mod Tests
use Prim.Native.Nat.{bit_and}
use ucas_coursework.Prelude.{
  ℕ, zero, suc, ◌+◌, ◌-◌, ◌*◌, ◌/◌, ◌%◌, ◌^◌, Bool, true, false, Option, none, some, List, [], ◌∷◌,
  ◌++◌, ◌==◌, ltb, leb, ◌&&◌, ◌||◌, not, if◌then◌else◌, set, get_or, length, take, drop,
}
use ucas_coursework.Net.Types.{Iface, overwrite, Sent, frame, arp_request, icmp, to_tcp}
use ucas_coursework.Net.Arp.{ArpCache, arpcache_lookup, arpcache_append_packet, arpcache_insert}
use ucas_coursework.Net.Checksum.{ip_checksum}

-- `rt_entry_t`
pub record RtEntry : Type 0 where
  pub dest : ℕ
  pub mask : ℕ
  pub gw : ℕ
  pub iface : Iface

unfoldable pub new_rt_entry : ℕ → ℕ → ℕ → Iface → RtEntry
new_rt_entry dest mask gw iface = record { dest = dest; mask = mask; gw = gw; iface = iface }

unfoldable pub add_rt_entry : RtEntry → List RtEntry → List RtEntry
add_rt_entry entry rtable = rtable ++ (entry ∷ [])

-- The entry at a position of the list is taken out.
unfoldable pub remove_rt_entry : ℕ → List RtEntry → List RtEntry
remove_rt_entry i rtable = take i rtable ++ drop (i + 1) rtable

unfoldable pub clear_rtable : List RtEntry → List RtEntry
clear_rtable rtable = []

abbrev pub matches : ℕ → RtEntry → Bool
matches dst entry = bit_and dst entry.mask == bit_and entry.dest entry.mask

-- `!selected || selected->mask < entry->mask`
abbrev pub better : Option RtEntry → RtEntry → Bool
better none entry = true
better (some selected) entry = ltb selected.mask entry.mask

unfoldable pub prefix_loop : ℕ → Option RtEntry → List RtEntry → Option RtEntry
prefix_loop dst selected [] = selected
prefix_loop dst selected (entry ∷ rtable) =
    prefix_loop dst (if matches dst entry && better selected entry then some entry else selected)
      rtable

unfoldable pub longest_prefix_match : ℕ → List RtEntry → Option RtEntry
unfolding prefix_loop
longest_prefix_match dst rtable = prefix_loop dst none rtable

unfoldable pub get_next_hop : RtEntry → ℕ → ℕ
get_next_hop entry dst = if not (entry.gw == 0) then entry.gw else dst

-- Numbers in network byte order.
unfoldable pub be32 : ℕ → List ℕ → ℕ
be32 a p =
    ((get_or p a 0 * 256 + get_or p (a + 1) 0) * 256 + get_or p (a + 2) 0) * 256
    + get_or p (a + 3) 0

unfoldable pub be16 : ℕ → List ℕ → ℕ
be16 a p = get_or p a 0 * 256 + get_or p (a + 1) 0

-- The Ethernet source address of the interface, and the destination address.
abbrev pub addressed : Iface → List ℕ → List ℕ → List ℕ
addressed iface dst packet = overwrite 6 iface.mac (overwrite 0 dst packet)

-- `hdr->ttl -= 1; hdr->checksum = ip_checksum(hdr)`, the sum stored low byte first
unfoldable pub age : List ℕ → List ℕ
unfolding ip_checksum
age packet =
    let older : List ℕ = set packet 22 (get_or packet 22 0 - 1) in
    let sum : ℕ = ip_checksum (drop 14 older) in overwrite 24 (sum % 256 ∷ sum / 256 ∷ []) older

-- The packet leaves by the interface, or waits in the ARP cache.
abbrev pub send_or_wait :
    ℕ → Iface → ℕ → List ℕ → ℕ → ArpCache → Option (List ℕ) → List Sent × ArpCache
send_or_wait now iface next_hop packet len cache (some dst) =
    (frame iface (addressed iface dst packet) len ∷ [], cache)
send_or_wait now iface next_hop packet len cache none =
    arpcache_append_packet now iface next_hop packet len cache

abbrev pub forward_by : ℕ → ℕ → List ℕ → ℕ → ArpCache → Option RtEntry → List Sent × ArpCache
forward_by now ip_dst packet len cache none = (icmp packet len 3 0 ∷ [], cache)
forward_by now ip_dst packet len cache (some entry) =
    let next_hop : ℕ = get_next_hop entry ip_dst in
    send_or_wait now entry.iface next_hop packet len cache (arpcache_lookup next_hop cache)

unfoldable pub ip_forward_packet :
    ℕ → List RtEntry → ℕ → List ℕ → ℕ → ArpCache → List Sent × ArpCache
unfolding age longest_prefix_match get_next_hop arpcache_lookup arpcache_append_packet
ip_forward_packet now rtable ip_dst packet len cache =
    if leb (get_or packet 22 0) 1
    then (icmp packet len 11 0 ∷ [], cache)
    else forward_by now ip_dst (age packet) len cache (longest_prefix_match ip_dst rtable)

-- The type of the ICMP message is the first byte behind the IP header.
abbrev pub icmp_type : List ℕ → ℕ
icmp_type packet = get_or packet (14 + get_or packet 14 0 % 16 * 4) 0

unfoldable pub handle_ip_packet :
    ℕ → List RtEntry → Iface → List ℕ → ℕ → ArpCache → List Sent × ArpCache
unfolding be32 ip_forward_packet
handle_ip_packet now rtable iface packet len cache =
    let daddr : ℕ = be32 30 packet in
    let protocol : ℕ = get_or packet 23 0 in
    if daddr == iface.ip
    then (
      if protocol == 1
          then (if icmp_type packet == 8 then icmp packet len 0 0 ∷ [] else [])
          else if protocol == 6
          then to_tcp packet ∷ []
          else [],
      cache,
    )
    else ip_forward_packet now rtable daddr packet len cache

-- `iface_send_packet_by_arp`; 0x0800 is the type of IP.
unfoldable pub iface_send_packet_by_arp :
    ℕ → Iface → ℕ → List ℕ → ℕ → ArpCache → List Sent × ArpCache
unfolding arpcache_lookup arpcache_append_packet overwrite
iface_send_packet_by_arp now iface dst_ip packet len cache =
    let p : List ℕ = overwrite 12 (8 ∷ 0 ∷ []) (overwrite 6 iface.mac packet) in
    send_by now iface dst_ip p len cache (arpcache_lookup dst_ip cache)
  where
    send_by : ℕ → Iface → ℕ → List ℕ → ℕ → ArpCache → Option (List ℕ) → List Sent × ArpCache
    send_by now iface dst_ip p len cache (some mac) =
        (frame iface (overwrite 0 mac p) len ∷ [], cache)
    send_by now iface dst_ip p len cache none = arpcache_append_packet now iface dst_ip p len cache

-- `ip_send_packet`, which drops a packet for which there is no route
unfoldable pub ip_send_packet : ℕ → List RtEntry → List ℕ → ℕ → ArpCache → List Sent × ArpCache
unfolding be32 longest_prefix_match get_next_hop overwrite iface_send_packet_by_arp
ip_send_packet now rtable packet len cache =
    send_via (be32 30 packet) (longest_prefix_match (be32 30 packet) rtable)
  where
    send_via : ℕ → Option RtEntry → List Sent × ArpCache
    send_via dst none = ([], cache)
    send_via dst (some entry) =
        iface_send_packet_by_arp now entry.iface (get_next_hop entry dst)
          (overwrite 6 entry.iface.mac (overwrite 12 (8 ∷ 0 ∷ []) packet)) len cache
