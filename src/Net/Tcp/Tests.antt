-- ===== src/Net/Tcp/Tests.antt =====
-- Concrete runs of the TCP stack.
use ucas_coursework.Prelude.{ℕ, ◌+◌, ◌≡◌, refl, true, false, some, List, [], ◌∷◌, arith, length}
use ucas_coursework.Net.Ring.{read_bytes, alloc_ring_buffer}
use ucas_coursework.Net.Ring.Contents.{contents}
use ucas_coursework.Net.Tcp.{
  listen, established, Cb, Sock, Tcp, SendBuffer, fresh_sock, u32, tcp_syn, tcp_ack, tcp_set_state,
  alloc_tcp_sock,
}
use ucas_coursework.Net.Tcp.Seq.{
  compare_32b_lem, less_than_32b, less_or_equal_32b, greater_or_equal_32b, greater_than_32b,
}
use ucas_coursework.Net.Tcp.Table.{
  tcp_hash, add_hash, hash_at, is_known, found, tcp_sock_lookup_established, tcp_sock_lookup_listen,
}
use ucas_coursework.Net.Tcp.Output.{tcp_send_control_packet, tcp_send_packet, remove_from_send_list}
use ucas_coursework.Net.Tcp.Input.{
  tcp_recv_data, take_next, requested, child_sock, tcp_state_listen,
}
use ucas_coursework.Net.Tcp.Process.{
  tcp_process, process_at, process_answered, process_checked, process_open, open_at, process_fin,
  after_ack, handle_tcp_cb,
}
use ucas_coursework.Net.Tcp.Api.{tcp_sock_write}
use ucas_coursework.Net.Tcp.Delivery.{IsPiece, IsReceiving, Advance, IsIdle, stored, total}
use ucas_coursework.Net.Tcp.Arrivals.{Arrived, tcp_recv_data-Arrived, recv_all, recv_all-Advance}
use ucas_coursework.Net.Tcp.Write.{CanSend, Written, tcp_sock_write-Written}
use ucas_coursework.Net.Tcp.Edges.{Stepped}
use ucas_coursework.Net.Tcp.Machine.{tcp_process-Stepped}
use ucas_coursework.Net.Tcp.Connect.{Handshaken, connect-Handshaken}
use ucas_coursework.Net.Tcp.Window.{window_total, window_total-kept}
use ucas_coursework.Net.Tcp.Lookup.{tcp_hash-handle}

-- A stack with one kind of socket at every address and nothing in its tables; the next socket is 9.
abbrev pub stack_of : Sock → Tcp
stack_of s = record {
  socks = λ a. s;
  next_sock = 9;
  established_table = λ h. [];
  listen_table = λ h. [];
  bind_table = λ h. [];
  timer_list = [];
  last = false;
  sent = [];
}

-- A connection between 1:11 and 2:22, at 100 on the receiving side.
abbrev pub open_sock : Sock
open_sock = record fresh_sock {
  sip = 1;
  sport = 11;
  dip = 2;
  dport = 22;
  state = established;
  snd_nxt = 500;
  snd_wnd = 2000;
  rcv_nxt = 100;
}

abbrev packet : ℕ → ℕ → List ℕ → Cb
packet seq flags payload = record {
  saddr = 2;
  daddr = 1;
  sport = 22;
  dport = 11;
  seq = seq;
  seq_end = u32 (seq + length payload);
  ack = 500;
  payload = payload;
  rwnd = 65535;
  flags = flags;
}

-- Past the end of the 32 bits.
compare_32b_lem_example :
    (less_than_32b (u32 (4294967290 + 10)) (u32 (4294967290 + 3)) ≡ false)
    × (less_or_equal_32b (u32 (4294967290 + 10)) (u32 (4294967290 + 3)) ≡ false)
    × (greater_than_32b (u32 (4294967290 + 10)) (u32 (4294967290 + 3)) ≡ true)
    × (greater_or_equal_32b (u32 (4294967290 + 10)) (u32 (4294967290 + 3)) ≡ true)
compare_32b_lem_example = compare_32b_lem 4294967290 10 3 (omega arith) (omega arith)

-- The stream whose byte at `i` is `i + 7`.
abbrev counting : ℕ → ℕ
counting i = i + 7

open-IsReceiving : IsReceiving 100 counting 0 open_sock
unfolding fresh_sock alloc_ring_buffer
open-IsReceiving = record {
  next = refl;
  inside = omega arith;
  ring = record { head_in = omega arith; tail_in = omega arith };
  pieces = tt;
}

open-IsIdle : IsIdle open_sock
unfolding take_next fresh_sock
open-IsIdle = refl

first-IsPiece : IsPiece 100 counting 100 (7 ∷ 8 ∷ [])
unfolding read_bytes
first-IsPiece = record { offset = 0; inside = omega arith; numbered = refl; taken = refl }

second-IsPiece : IsPiece 100 counting 102 (9 ∷ 10 ∷ [])
unfolding read_bytes
second-IsPiece = record { offset = 2; inside = omega arith; numbered = refl; taken = refl }

open-stored : stored open_sock ≡ 0
unfolding total fresh_sock contents alloc_ring_buffer read_bytes
open-stored = refl

open-size : open_sock.rcv_buf.size ≡ 65535
unfolding fresh_sock alloc_ring_buffer
open-size = refl

tcp_recv_data-Arrived_example :
    (k' : ℕ) × (t' : Tcp) × (tcp_recv_data 1 (packet 100 24 (7 ∷ 8 ∷ [])) (stack_of open_sock)
      ≡ some t')
    × Arrived 100 counting 0 k' first-IsPiece.offset
        (packet 100 24 (7 ∷ 8 ∷ []))
        open_sock
        (t'.socks 1)
tcp_recv_data-Arrived_example =
    tcp_recv_data-Arrived 100 counting 0 1 (packet 100 24 (7 ∷ 8 ∷ [])) (stack_of open_sock)
      open-IsReceiving open-IsIdle first-IsPiece (omega (arith, open-stored, open-size))

abbrev reordered : List Cb
reordered =
    packet 102 24 (9 ∷ 10 ∷ []) ∷ packet 100 24 (7 ∷ 8 ∷ []) ∷ packet 100 24 (7 ∷ 8 ∷ []) ∷ []

recv_all-Advance_example :
    (k' : ℕ) × (t' : Tcp) × (recv_all 1 reordered (stack_of open_sock) ≡ some t')
    × Advance 100 counting 0 k' open_sock (t'.socks 1)
    × IsIdle (t'.socks 1)
recv_all-Advance_example =
    recv_all-Advance 100 counting 0 1 reordered (stack_of open_sock) open-IsReceiving open-IsIdle
      (second-IsPiece, (first-IsPiece, (first-IsPiece, tt))) (omega (arith, open-stored, open-size))

abbrev pub some_bytes : List ℕ
some_bytes = 1 ∷ 2 ∷ 3 ∷ 4 ∷ 5 ∷ []

abbrev pub narrow : Tcp
narrow = stack_of (record open_sock { snd_wnd = 3 })

pub narrow-CanSend : CanSend 1 some_bytes narrow
narrow-CanSend = record {
  number = omega arith;
  window = omega arith;
  some_bytes = omega arith;
  size = omega arith;
}

tcp_sock_write-Written_example :
    Written 1 some_bytes narrow
      (tcp_sock_write 1 some_bytes narrow).0
      (tcp_sock_write 1 some_bytes narrow).1
tcp_sock_write-Written_example = tcp_sock_write-Written 1 some_bytes narrow narrow-CanSend

abbrev fin_packet : Cb
fin_packet = packet 100 17 []

abbrev peer_gone : Tcp
peer_gone = process_fin established 1 fin_packet (tcp_set_state 1 established (stack_of open_sock))

fin_step : tcp_process 0 1 fin_packet (stack_of open_sock) ≡ some peer_gone
unfolding tcp_process process_at process_answered process_checked process_open open_at after_ack
fin_step = refl

tcp_process-Stepped_example : Stepped 1 (stack_of open_sock) peer_gone
tcp_process-Stepped_example =
    tcp_process-Stepped 0 1 fin_packet (stack_of open_sock) peer_gone (λ e. omega arith) fin_step

abbrev listening : Tcp
listening = stack_of (record fresh_sock { sport = 11; state = listen })

abbrev syn_packet : Cb
syn_packet = packet 99 2 []

abbrev asked : Tcp
asked =
    tcp_send_control_packet 9 (tcp_syn + tcp_ack)
      (add_hash 9 (requested 700 1 syn_packet listening))

request_step : tcp_process 700 1 syn_packet listening ≡ some asked
unfolding tcp_process process_at tcp_state_listen tcp_hash hash_at is_known found
    tcp_sock_lookup_established requested alloc_tcp_sock tcp_set_state child_sock fresh_sock
request_step = refl

abbrev used_twice : Tcp
used_twice = record (stack_of (record fresh_sock { sport = 11 })) { bind_table = λ h. 2 ∷ [] }

-- The listening socket 1 is in the table.
abbrev served : Tcp
served = record listening { listen_table = λ h. 1 ∷ [] }

served-lookup : tcp_sock_lookup_listen 11 served ≡ some 1
unfolding tcp_sock_lookup_listen
served-lookup = refl

connect-Handshaken_example : Handshaken 300 700 2 12345 3 1 11 1 (stack_of fresh_sock) served
unfolding fresh_sock
connect-Handshaken_example =
    connect-Handshaken 300 700 2 12345 3 1 11 1 (stack_of fresh_sock) served refl refl tt refl
      (λ e. omega arith) served-lookup tt

abbrev pub hashed : Tcp
hashed = add_hash 1 (stack_of open_sock)

hash_step : tcp_hash 1 (stack_of open_sock) ≡ some (true, hashed)
unfolding tcp_hash hash_at is_known found tcp_sock_lookup_established fresh_sock
hash_step = refl

tcp_hash-handle_example :
    handle_tcp_cb 0 (packet 100 16 []) hashed ≡ tcp_process 0 1 (packet 100 16 []) hashed
tcp_hash-handle_example =
    tcp_hash-handle 0 1 (packet 100 16 []) (stack_of open_sock) hashed (λ e. cc) hash_step
      (record { to_address = refl; from_address = refl; to_port = refl; from_port = refl })

abbrev waiting_segment : SendBuffer
waiting_segment = record {
  pkt = record {
    saddr = 1;
    daddr = 2;
    sport = 11;
    dport = 22;
    seq = 498;
    ack = 100;
    flags = 24;
    rwnd = 65535;
    payload = 5 ∷ 6 ∷ [];
  };
  seq = 498;
  num = 2;
  data_size = 2;
  tot_size = 56;
}

abbrev late : Tcp
late = stack_of (record open_sock { send_list = waiting_segment ∷ [] })

window_total-kept_example :
    (window_total ((tcp_send_packet 1 (8 ∷ 9 ∷ []) late).socks 1) ≡ window_total (late.socks 1))
    × (window_total ((tcp_send_control_packet 1 17 late).socks 1) ≡ window_total (late.socks 1))
    × (window_total (remove_from_send_list 500 (late.socks 1)) ≡ window_total (late.socks 1))
window_total-kept_example = window_total-kept 1 500 17 (8 ∷ 9 ∷ []) late
