-- ===== src/Net/Tcp/WireTests.antt =====
-- The bytes of a segment, and the round trip at a concrete one.
use ucas_coursework.Prelude.{ℕ, ◌≡◌, refl, List, [], ◌∷◌, arith, drop, ◌+◌}
use ucas_coursework.Net.Tcp.{Segment, tcp_ack, tcp_psh}
use ucas_coursework.Net.Tcp.Tests.{hashed}
use ucas_coursework.Net.Tcp.Process.{handle_tcp_cb}
use ucas_coursework.Net.Tcp.Handshake.{cb_of}
use ucas_coursework.Net.Tcp.Wire.{packet_with, tcp_checksum, tcp_packet, handle_tcp_packet}
use ucas_coursework.Net.Tcp.Carried.{tcp_packet-handle}

abbrev mac : List ℕ
mac = 2 ∷ 0 ∷ 0 ∷ 0 ∷ 0 ∷ 1 ∷ []

abbrev data_packet : Segment
data_packet = record {
  saddr = 0x0a000001;
  daddr = 0x0a000002;
  sport = 12345;
  dport = 80;
  seq = 1000;
  ack = 2000;
  flags = tcp_psh + tcp_ack;
  rwnd = 65535;
  payload = 104 ∷ 105 ∷ 33 ∷ [];
}

bytes_run :
    drop 34 (tcp_packet mac mac 7 data_packet)
    ≡ 48 ∷ 57 ∷ 0 ∷ 80 ∷ 0 ∷ 0 ∷ 3 ∷ 232 ∷ 0 ∷ 0 ∷ 7 ∷ 208 ∷ 80 ∷ 24 ∷ 255 ∷ 255 ∷ 214 ∷ 28 ∷ 0 ∷ 0
      ∷ 104 ∷ 105 ∷ 33 ∷ []
unfolding tcp_packet packet_with tcp_checksum
bytes_run = refl

tcp_packet-handle_example :
    handle_tcp_packet 9 (tcp_packet mac mac 7 data_packet) hashed
    ≡ handle_tcp_cb 9 (cb_of data_packet) hashed
tcp_packet-handle_example =
    tcp_packet-handle mac mac 7 data_packet refl refl
      (record {
        saddr = omega arith;
        daddr = omega arith;
        sport = omega arith;
        dport = omega arith;
        seq = omega arith;
        ack = omega arith;
        rwnd = omega arith;
        payload = omega arith;
      })
      9 hashed
