-- ===== src/Net/Frames.antt =====
-- The frames that arp.c, icmp.c and `ip_init_hdr` of ip.c of Computer Networks/pr11-网络传输机制实验三 build, as
-- lists of bytes, and the handling of an ARP frame. That `malloc` fails is not modelled.
pub mod Exchange
pub mod Header
mod Tests
use ucas_coursework.Prelude.{
  ℕ, zero, suc, ◌+◌, ◌-◌, ◌*◌, ◌/◌, ◌%◌, ◌^◌, Bool, true, false, Option, none, some, List, [], ◌∷◌,
  ◌++◌, ◌==◌, if◌then◌else◌, get_or, take, drop, replicate,
}
use ucas_coursework.Net.Types.{Iface, overwrite, Sent, frame}
use ucas_coursework.Net.Arp.{ArpCache, arpcache_insert}
use ucas_coursework.Net.Checksum.{checksum, ip_checksum}
use ucas_coursework.Net.Ip.{RtEntry, be16, be32, longest_prefix_match, ip_send_packet}

-- The bytes of a number of 32 bits in network order.
abbrev pub be_bytes : ℕ → List ℕ
be_bytes n = n / 2 ^ 24 % 256 ∷ n / 2 ^ 16 % 256 ∷ n / 2 ^ 8 % 256 ∷ n % 256 ∷ []

-- `memcpy(_, p + a, n)`
abbrev pub slice : ℕ → ℕ → List ℕ → List ℕ
slice a n p = take n (drop a p)

-- An ARP frame: the Ethernet header, then the hardware and protocol types, the operation, and the
-- addresses of the sender and the target.
abbrev pub arp_frame : List ℕ → List ℕ → ℕ → ℕ → List ℕ → List ℕ → List ℕ
arp_frame dhost mac op spa tha tpa =
    dhost
    ++ (mac ++ (8 ∷ 6 ∷ 0 ∷ 1 ∷ 8 ∷ 0 ∷ 6 ∷ 4 ∷ 0 ∷ op ∷ (mac ++ (be_bytes spa ++ (tha ++ tpa)))))

unfoldable pub arp_send_request : Iface → ℕ → Sent
arp_send_request iface dst_ip =
    frame iface (arp_frame (replicate 6 255) iface.mac 1 iface.ip (replicate 6 0) (be_bytes dst_ip))
      42

-- `req` is the frame that is answered.
unfoldable pub arp_send_reply : Iface → List ℕ → Sent
arp_send_reply iface req =
    frame iface (arp_frame (slice 22 6 req) iface.mac 2 iface.ip (slice 22 6 req) (slice 28 4 req))
      42

abbrev pub and_sent : List Sent → Option (List Sent × ArpCache) → Option (List Sent × ArpCache)
and_sent sent none = none
and_sent sent (some (more, cache)) = some (sent ++ more, cache)

-- `none` where the insertion into the ARP cache writes outside its table.
unfoldable pub handle_arp_packet : ℕ → ℕ → Iface → List ℕ → ArpCache → Option (List Sent × ArpCache)
unfolding be16 be32 arp_send_reply arpcache_insert
handle_arp_packet now random iface packet cache =
    let learn = arpcache_insert now random (be32 28 packet) (slice 22 6 packet) cache in
    let op : ℕ = be16 20 packet in
    if op == 1
    then (if iface.ip == be32 38 packet
        then and_sent (arp_send_reply iface packet ∷ []) learn
        else some ([], cache))
    else if op == 2
    then (if iface.ip == be32 38 packet then learn else some ([], cache))
    else some ([], cache)

-- The header in front of its checksum and behind it; `id` is what `rand` returned.
abbrev pub header_front : ℕ → ℕ → ℕ → List ℕ
header_front id len proto =
    69 ∷ 0 ∷ len / 2 ^ 8 % 256 ∷ len % 256 ∷ id % 256 ∷ id / 2 ^ 8 % 256 ∷ 64 ∷ 0 ∷ 64 ∷ proto ∷ []

abbrev pub header_back : ℕ → ℕ → List ℕ
header_back saddr daddr = be_bytes saddr ++ be_bytes daddr

unfoldable pub ip_init_hdr : ℕ → ℕ → ℕ → ℕ → ℕ → List ℕ
unfolding ip_checksum
ip_init_hdr id saddr daddr len proto =
    let sum : ℕ = ip_checksum (header_front id len proto ++ (0 ∷ 0 ∷ header_back saddr daddr)) in
    header_front id len proto ++ (sum % 256 ∷ sum / 256 ∷ header_back saddr daddr)

-- The ICMP message: type, code, checksum, and the rest, which begins with identifier and sequence.
unfoldable pub icmp_message : ℕ → ℕ → List ℕ → List ℕ
unfolding checksum
icmp_message type code rest =
    let sum : ℕ = checksum (type ∷ code ∷ 0 ∷ 0 ∷ rest) 0 in
    type ∷ code ∷ sum % 256 ∷ sum / 256 ∷ rest

-- `IP_HDR_SIZE`
abbrev pub ip_hdr_size : List ℕ → ℕ
ip_hdr_size packet = get_or packet 14 0 % 16 * 4

-- The answer to an echo request: the message of the request from its identifier on.
unfoldable pub echo_rest : List ℕ → List ℕ
unfolding be16
echo_rest in_pkt =
    slice (14 + ip_hdr_size in_pkt + 4) (be16 16 in_pkt - ip_hdr_size in_pkt - 4) in_pkt

-- An error quotes the IP header of the packet and 8 bytes behind it.
unfoldable pub error_rest : List ℕ → List ℕ
error_rest in_pkt = 0 ∷ 0 ∷ 0 ∷ 0 ∷ slice 14 (ip_hdr_size in_pkt + 8) in_pkt

-- The packet with its Ethernet header still empty, and its length.
abbrev pub icmp_packet : ℕ → ℕ → ℕ → List ℕ → ℕ → List ℕ
icmp_packet id saddr daddr message icmp_len =
    replicate 14 0 ++ (ip_init_hdr id saddr daddr (20 + icmp_len) 1 ++ message)

abbrev pub send_error :
    ℕ → ℕ → List RtEntry → List ℕ → ℕ → ℕ → ArpCache → Option RtEntry → List Sent × ArpCache
send_error now id rtable in_pkt type code cache none = ([], cache)
send_error now id rtable in_pkt type code cache (some entry) =
    let icmp_len : ℕ = 8 + ip_hdr_size in_pkt + 8 in
    ip_send_packet now rtable
      (icmp_packet id entry.iface.ip (be32 26 in_pkt) (icmp_message type code (error_rest in_pkt))
        icmp_len)
      (14 + 20 + icmp_len) cache

-- The input has the bytes that its headers announce, as the source assumes.
unfoldable pub icmp_send_packet :
    ℕ → ℕ → List RtEntry → List ℕ → ℕ → ℕ → ℕ → ArpCache → List Sent × ArpCache
unfolding be16 be32 longest_prefix_match ip_send_packet ip_init_hdr icmp_message echo_rest
    error_rest
icmp_send_packet now id rtable in_pkt len type code cache =
    if type == 0
    then ip_send_packet now rtable
        (icmp_packet id (be32 30 in_pkt) (be32 26 in_pkt)
          (icmp_message type code (echo_rest in_pkt)) (be16 16 in_pkt - ip_hdr_size in_pkt))
        len cache
    else send_error now id rtable in_pkt type code cache
        (longest_prefix_match (be32 26 in_pkt) rtable)
