-- ===== src/Net/Tcp/Wire.antt =====
-- The bytes of a segment: tcp_init_hdr of tcp_out.c, tcp_checksum of include/tcp.h and tcp_cb_init and
-- handle_tcp_packet of tcp.c, Computer Networks/pr11-网络传输机制实验三. A packet has its Ethernet header in front.
use ucas_coursework.Prelude.{
  ℕ, ◌+◌, ◌-◌, ◌*◌, ◌/◌, ◌%◌, ◌^◌, Option, none, some, on_some, List, [], ◌∷◌, ◌++◌, ◌==◌, ltb,
  ◌||◌, if◌then◌else◌, get_or, set, take, drop, length,
}
use ucas_coursework.Net.Checksum.{checksum}
use ucas_coursework.Net.Ip.{be16, be32}
use ucas_coursework.Net.Frames.{be_bytes, ip_init_hdr}
use ucas_coursework.Net.Tcp.{Segment, Cb, Tcp, has_flag, tcp_syn, tcp_fin, u32}
use ucas_coursework.Net.Tcp.Process.{handle_tcp_cb}

abbrev pub short_bytes : ℕ → List ℕ
short_bytes n = n / 2 ^ 8 % 256 ∷ n % 256 ∷ []

-- A number of 32 bits as the processor reads it, low byte first
abbrev pub le32 : ℕ → List ℕ → ℕ
le32 a p =
    get_or p a 0
    + 256 * (get_or p (a + 1) 0 + 256 * (get_or p (a + 2) 0 + 256 * get_or p (a + 3) 0))

abbrev pub htons : ℕ → ℕ
htons n = n % 256 * 256 + n / 256

-- The header in front of its checksum; the data offset is 5 words.
unfoldable pub tcp_init_hdr : ℕ → ℕ → ℕ → ℕ → ℕ → ℕ → List ℕ
tcp_init_hdr sport dport seq ack flags rwnd =
    short_bytes sport
    ++ (short_bytes dport ++ (be_bytes seq ++ (be_bytes ack ++ (80 ∷ flags ∷ short_bytes rwnd))))

-- Where the TCP header begins
abbrev pub tcp_at : List ℕ → ℕ
tcp_at packet = 14 + get_or packet 14 0 % 16 * 4

unfoldable pub tcp_checksum : List ℕ → ℕ
unfolding checksum be16
tcp_checksum packet =
    let tcp_len : ℕ = be16 16 packet - get_or packet 14 0 % 16 * 4 in
    let sum : ℕ = le32 26 packet + le32 30 packet + htons (get_or packet 23 0) + htons tcp_len in
    checksum (take tcp_len (set (set (drop (tcp_at packet) packet) 16 0) 17 0)) (sum % 2 ^ 32)

-- The packet of a segment with the word `c` in the field of the checksum
unfoldable pub packet_with : List ℕ → List ℕ → ℕ → Segment → ℕ → List ℕ
unfolding ip_init_hdr tcp_init_hdr
packet_with dhost shost id s c =
    dhost
    ++ (shost
        ++ (8
            ∷ 0
            ∷ (ip_init_hdr id s.saddr s.daddr (40 + length s.payload) 6
                ++ (tcp_init_hdr s.sport s.dport s.seq s.ack s.flags s.rwnd
                    ++ (c % 256 ∷ c / 256 ∷ 0 ∷ 0 ∷ s.payload)))))

unfoldable pub tcp_packet : List ℕ → List ℕ → ℕ → Segment → List ℕ
tcp_packet dhost shost id s =
    packet_with dhost shost id s (tcp_checksum (packet_with dhost shost id s 0))

-- `none` where the packet says that it is shorter than its headers.
unfoldable pub tcp_cb_init : List ℕ → Option Cb
unfolding be16 be32
tcp_cb_init packet =
    let tcp : ℕ = tcp_at packet in
    let headers : ℕ = get_or packet 14 0 % 16 * 4 + get_or packet (tcp + 12) 0 / 16 * 4 in
    let len : ℕ = be16 16 packet - headers in
    let flags : ℕ = get_or packet (tcp + 13) 0 in
    let cb : Cb = record {
      saddr = be32 26 packet;
      daddr = be32 30 packet;
      sport = be16 tcp packet;
      dport = be16 (tcp + 2) packet;
      seq = be32 (tcp + 4) packet;
      seq_end = u32 (
          be32 (tcp + 4) packet
          + len
          + (if has_flag tcp_syn flags || has_flag tcp_fin flags then 1 else 0));
      ack = be32 (tcp + 8) packet;
      payload = take len (drop (tcp + get_or packet (tcp + 12) 0 / 16 * 4) packet);
      rwnd = be16 (tcp + 14) packet;
      flags = flags;
    } in
    if ltb (be16 16 packet) headers then none else some cb

-- A packet with a wrong checksum is dropped.
unfoldable pub handle_tcp_packet : ℕ → List ℕ → Tcp → Option Tcp
handle_tcp_packet iss packet t =
    let tcp : ℕ = tcp_at packet in
    let cksum : ℕ = get_or packet (tcp + 16) 0 + 256 * get_or packet (tcp + 17) 0 in
    if tcp_checksum packet == cksum
    then on_some (λ cb. handle_tcp_cb iss cb t) (tcp_cb_init packet)
    else some t
