-- ===== src/Net/Tcp/Carried.antt =====
-- A segment of the TCP stack of Computer Networks/pr11-网络传输机制实验三, from its bytes back to the stack.
use ucas_coursework.Prelude.{
  ℕ, ◌+◌, ◌-◌, ◌*◌, ◌/◌, ◌%◌, ◌^◌, ◌<◌, ◌≡◌, refl, sym, ◌∙◌, true, false, arith, some, List, ◌==◌,
  ==_iff, ltb, get_or, drop, take_all, length,
}
use ucas_coursework.Net.Ip.{be16, be32}
use ucas_coursework.Net.Frames.Exchange.{number, six}
use ucas_coursework.Net.Tcp.{Segment, Tcp}
use ucas_coursework.Net.Tcp.Process.{handle_tcp_cb}
use ucas_coursework.Net.Tcp.Handshake.{cb_of}
use ucas_coursework.Net.Tcp.Wire.{
  tcp_checksum, packet_with, tcp_packet, tcp_cb_init, handle_tcp_packet,
}

-- The fields have the widths of the headers, and the packet fits into the length of the IP header.
pub record IsNarrow (s : Segment) : Type 0 where
  pub saddr : s.saddr < 2 ^ 32
  pub daddr : s.daddr < 2 ^ 32
  pub sport : s.sport < 2 ^ 16
  pub dport : s.dport < 2 ^ 16
  pub seq : s.seq < 2 ^ 32
  pub ack : s.ack < 2 ^ 32
  pub rwnd : s.rwnd < 2 ^ 16
  pub payload : 40 + length s.payload < 2 ^ 16

short : (n : ℕ) → n < 2 ^ 16 → n / 2 ^ 8 % 256 * 256 + n % 256 ≡ n
short n h = omega arith

-- What the packet says, read at the offsets of `tcp_cb_init`
record Says (s : Segment) (c : ℕ) (packet : List ℕ) : Type 0 where
  ihl : get_or packet 14 0 ≡ 69
  off : get_or packet 46 0 ≡ 80
  tot_len : be16 16 packet ≡ 40 + length s.payload
  saddr : be32 26 packet ≡ s.saddr
  daddr : be32 30 packet ≡ s.daddr
  sport : be16 34 packet ≡ s.sport
  dport : be16 36 packet ≡ s.dport
  seq : be32 38 packet ≡ s.seq
  ack : be32 42 packet ≡ s.ack
  flags : get_or packet 47 0 ≡ s.flags
  rwnd : be16 48 packet ≡ s.rwnd
  payload : drop 54 packet ≡ s.payload
  cksum : get_or packet 50 0 + 256 * get_or packet 51 0 ≡ c

module _ (dhost shost : List ℕ) (id : ℕ) (s : Segment) (dst : length dhost ≡ 6)
    (src : length shost ≡ 6) (narrow : IsNarrow s) where
  packet_with-Says : (c : ℕ) → Says s c (packet_with dhost shost id s c)
  unfolding packet_with be16 be32
  packet_with-Says c =
      let (d₀, d₁, d₂, d₃, d₄, d₅, e) = six dhost dst in
      let (s₀, s₁, s₂, s₃, s₄, s₅, f) = six shost src in
      rw (e, f)
        (record {
          ihl = refl;
          off = refl;
          tot_len = short (40 + length s.payload) narrow.payload;
          saddr = number s.saddr narrow.saddr;
          daddr = number s.daddr narrow.daddr;
          sport = short s.sport narrow.sport;
          dport = short s.dport narrow.dport;
          seq = number s.seq narrow.seq;
          ack = number s.ack narrow.ack;
          flags = refl;
          rwnd = short s.rwnd narrow.rwnd;
          payload = refl;
          cksum = omega arith;
        })

  -- The field of the checksum does not count.
  tcp_checksum-with :
      (c : ℕ)
      → tcp_checksum (packet_with dhost shost id s c)
        ≡ tcp_checksum (packet_with dhost shost id s 0)
  unfolding tcp_checksum packet_with
  tcp_checksum-with c =
      let (d₀, d₁, d₂, d₃, d₄, d₅, e) = six dhost dst in
      let (s₀, s₁, s₂, s₃, s₄, s₅, f) = six shost src in rw (e, f) refl

  tcp_cb_init-with : (c : ℕ) → tcp_cb_init (packet_with dhost shost id s c) ≡ some (cb_of s)
  unfolding tcp_cb_init
  tcp_cb_init-with c =
      let p : List ℕ = packet_with dhost shost id s c in
      let t : Says s c p = packet_with-Says c in
      let whole : ltb (40 + length s.payload) 40 ≡ false = ground arith in
      let len : 40 + length s.payload - 40 ≡ length s.payload = omega arith in
      rw (
        t.ihl,
        t.off,
        t.tot_len,
        whole,
        len,
        t.saddr,
        t.daddr,
        t.sport,
        t.dport,
        t.seq,
        t.ack,
        t.flags,
        t.rwnd,
        t.payload,
        take_all (length s.payload) s.payload (omega arith),
      )

  -- A segment whose fields have the widths of the headers, in a packet of any hardware addresses of 6
  -- bytes and any identification, passes the check of its checksum, and is handed on to its socket as
  -- just the segment that was sent.
  pub tcp_packet-handle :
      (iss : ℕ) (t : Tcp)
      → handle_tcp_packet iss (tcp_packet dhost shost id s) t ≡ handle_tcp_cb iss (cb_of s) t
  unfolding handle_tcp_packet tcp_packet
  tcp_packet-handle iss t =
      let c : ℕ = tcp_checksum (packet_with dhost shost id s 0) in
      let p : List ℕ = packet_with dhost shost id s c in
      let q : Says s c p = packet_with-Says c in
      let valid : (tcp_checksum p == get_or p 50 0 + 256 * get_or p 51 0) ≡ true =
        (==_iff _ _).1 (tcp_checksum-with c ∙ sym q.cksum) in
      rw (q.ihl, valid, tcp_cb_init-with c)
