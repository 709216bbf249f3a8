-- ===== src/Net/Tcp/TransferTests.antt =====
-- Five bytes of a call of `tcp_sock_write` at a peer, where the window takes three of them.
use ucas_coursework.Prelude.{◌≡◌, refl, arith, length}
use ucas_coursework.Net.Ring.{alloc_ring_buffer, read_bytes}
use ucas_coursework.Net.Ring.Contents.{contents}
use ucas_coursework.Net.Tcp.{Tcp, fresh_sock}
use ucas_coursework.Net.Tcp.Api.{tcp_sock_write}
use ucas_coursework.Net.Tcp.Tests.{stack_of, open_sock, some_bytes, narrow, narrow-CanSend}
use ucas_coursework.Net.Tcp.Transfer.{IsPeer, Delivered, tcp_sock_write-Delivered}

abbrev peer : Tcp
peer = stack_of (record open_sock { rcv_nxt = 500 })

peer-IsPeer : IsPeer 1 narrow 1 peer
unfolding fresh_sock alloc_ring_buffer
peer-IsPeer = record {
  next = refl;
  ring = record { head_in = omega arith; tail_in = omega arith };
  nothing_waits = refl;
}

peer-empty : length (contents (peer.socks 1).rcv_buf) ≡ 0
unfolding fresh_sock contents alloc_ring_buffer read_bytes
peer-empty = refl

peer-size : (peer.socks 1).rcv_buf.size ≡ 65535
unfolding fresh_sock alloc_ring_buffer
peer-size = refl

tcp_sock_write-Delivered_example :
    Delivered 1 some_bytes narrow 1 peer
      (tcp_sock_write 1 some_bytes narrow).0
      (tcp_sock_write 1 some_bytes narrow).1
tcp_sock_write-Delivered_example =
    tcp_sock_write-Delivered 1 some_bytes narrow 1 peer narrow-CanSend peer-IsPeer
      (omega (arith, peer-empty, peer-size))
