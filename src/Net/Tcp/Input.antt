-- ===== src/Net/Tcp/Input.antt =====
-- The TCP state machine, tcp_in.c of Computer Networks/pr11-网络传输机制实验三. A `u32` minus 1 is written with
-- its wrap-around; `iss` is what `tcp_new_iss` returns if it is called.
use ucas_coursework.Prelude.{
  ℕ, zero, suc, ◌+◌, ◌-◌, ◌^◌, Bool, true, false, Option, none, some, List, [], ◌∷◌, ◌++◌, ◌==◌,
  ltb, ◌&&◌, if◌then◌else◌, length, on_some, update,
}
use ucas_coursework.Net.Ring.{write_ring_buffer}
use ucas_coursework.Net.Tcp.{
  syn_recv, established, Cb, RecvBuffer, Sock, Tcp, modify_sock, tcp_set_state, u32, u16, has_flag,
  tcp_syn, tcp_ack, wake_sleeper, alloc_tcp_sock,
}
use ucas_coursework.Net.Tcp.Seq.{less_or_equal_32b, less_than_32b}
use ucas_coursework.Net.Tcp.Table.{unlink, tcp_hash}
use ucas_coursework.Net.Tcp.Output.{tcp_send_control_packet, tcp_send_reset, remove_from_send_list}

abbrev pub u32_pred : ℕ → ℕ
u32_pred n = u32 (n + 2 ^ 32 - 1)

unfoldable pub set_last : Tcp → Tcp
set_last t = record t { last = true }

-- The child that serves a request for a connection.
unfoldable pub child_sock : ℕ → ℕ → ℕ → Cb → Sock → Sock
child_sock iss a backlog cb s = record s {
  sip = cb.daddr;
  sport = cb.dport;
  dip = cb.saddr;
  dport = cb.sport;
  parent = some a;
  backlog = backlog;
  iss = iss;
  snd_nxt = iss;
  rcv_nxt = u32 (cb.seq + 1);
  snd_wnd = u16 cb.rwnd;
  snd_una = u32_pred iss;
}

abbrev pub and_then {ℓ κ} : {A : Type ℓ} {B : Type κ} → (A → B) → Option (Bool × A) → Option B
and_then f none = none
and_then f (some (b, a)) = some (f a)

-- The stack with the child, before it is hashed.
unfoldable pub requested : ℕ → ℕ → Cb → Tcp → Tcp
unfolding alloc_tcp_sock child_sock tcp_set_state
requested iss a cb t =
    let (child, t₁) = alloc_tcp_sock t in
    tcp_set_state child syn_recv (
      modify_sock a (λ s. record s { listen_queue = s.listen_queue ++ (child ∷ []) })
        (modify_sock child (child_sock iss a (t.socks a).backlog cb) t₁))

unfoldable pub tcp_state_listen : ℕ → ℕ → Cb → Tcp → Option Tcp
unfolding requested tcp_hash tcp_send_control_packet
tcp_state_listen iss a cb t =
    if has_flag tcp_syn cb.flags
    then and_then (tcp_send_control_packet t.next_sock (tcp_syn + tcp_ack))
        (tcp_hash t.next_sock (requested iss a cb t))
    else some t

unfoldable pub tcp_state_closed : Cb → Tcp → Tcp
unfolding tcp_send_reset
tcp_state_closed cb t = tcp_send_reset cb t

unfoldable pub tcp_state_syn_sent : ℕ → Cb → Tcp → Tcp
unfolding tcp_set_state tcp_send_control_packet
tcp_state_syn_sent a cb t =
    if cb.flags == tcp_syn + tcp_ack && cb.ack == (t.socks a).snd_nxt
    then modify_sock a (λ s. record s { wait_connect = wake_sleeper s.wait_connect })
        (tcp_send_control_packet a tcp_ack (
          modify_sock a
            (λ s. record s {
              snd_una = u32_pred cb.ack;
              rcv_nxt = u32 (cb.seq + 1);
              snd_wnd = u16 cb.rwnd;
            })
            (tcp_set_state a established t)))
    else t

unfoldable pub tcp_update_window : Cb → Sock → Sock
tcp_update_window cb s = record s {
  snd_wnd = u16 cb.rwnd;
  wait_send = if s.snd_wnd == 0 then wake_sleeper s.wait_send else s.wait_send;
}

unfoldable pub tcp_update_window_safe : Cb → Sock → Sock
unfolding less_or_equal_32b tcp_update_window
tcp_update_window_safe cb s =
    if less_or_equal_32b s.snd_una cb.ack && less_or_equal_32b cb.ack s.snd_nxt
    then tcp_update_window cb s
    else s

-- `tsk->list` is taken from the list of the parent that it is in.
unfoldable pub tcp_sock_accept_enqueue : ℕ → ℕ → Tcp → Tcp
unfolding unlink
tcp_sock_accept_enqueue p a t =
    modify_sock p
      (λ s. record s {
        listen_queue = unlink a s.listen_queue;
        accept_queue = unlink a s.accept_queue ++ (a ∷ []);
        accept_backlog = s.accept_backlog + 1;
      })
      t

-- The payload of a packet goes to the receive buffer, where there is any.
unfoldable pub deliver : List ℕ → Sock → Option Sock
unfolding write_ring_buffer
deliver [] s = some s
deliver (b ∷ bytes) s =
    on_some (λ r. some (record s { rcv_buf = r; rcv_nxt = u32 (s.rcv_nxt + length (b ∷ bytes)) }))
      (write_ring_buffer (b ∷ bytes) s.rcv_buf)

abbrev pub with_sock : ℕ → Tcp → Option Sock → Option Tcp
with_sock a t none = none
with_sock a t (some s) = some (record t { socks = update t.socks a s })

-- The handling of a packet behind the enqueuing, where `t` has it.
unfoldable pub finish_syn_recv : ℕ → ℕ → Cb → Tcp → Option Tcp
unfolding deliver tcp_send_control_packet remove_from_send_list
finish_syn_recv p a cb t =
    on_some
      (λ t'. some (
        modify_sock p (λ s. record s { wait_accept = wake_sleeper s.wait_accept })
          (modify_sock a (remove_from_send_list cb.ack)
            (if ltb 0 (length cb.payload) then tcp_send_control_packet a tcp_ack t' else t'))))
      (with_sock a t (deliver cb.payload (t.socks a)))

-- `tcp_state_syn_recv` behind the check of the number, with the parent; without one it uses NULL.
unfoldable pub established_by : Option ℕ → ℕ → Cb → Tcp → Option Tcp
unfolding tcp_sock_accept_enqueue tcp_set_state finish_syn_recv
established_by none a cb t = none
established_by (some p) a cb t = finish_syn_recv p a cb (
    modify_sock a (λ s. record s { snd_una = u32_pred cb.ack; rcv_wnd = u16 cb.rwnd })
      (tcp_set_state a established (tcp_sock_accept_enqueue p a t)))

unfoldable pub tcp_state_syn_recv : ℕ → Cb → Tcp → Option Tcp
unfolding established_by
tcp_state_syn_recv a cb t =
    if cb.ack == (t.socks a).snd_nxt then established_by (t.socks a).parent a cb t else some t

-- `seq` is not past the end of the receiving window.
unfoldable pub is_tcp_seq_valid : Cb → Sock → Bool
unfolding less_than_32b
is_tcp_seq_valid cb s =
    less_than_32b cb.seq (u32 (s.rcv_nxt + (if ltb 1 s.rcv_wnd then s.rcv_wnd else 1)))

-- The first buffer of `recv_list` that continues the data, and the list without it.
unfoldable pub take_next : ℕ → List RecvBuffer → Option (List ℕ × List RecvBuffer)
take_next end [] = none
take_next end (b ∷ bs) =
    let rest = take_next end bs in
    if b.seq == end then some (b.payload, bs) else on_some (λ p. some (p.0, b ∷ p.1)) rest

-- The loop of `tcp_recv_data`, each turn of which takes one buffer from the list.
unfoldable pub drain : ℕ → Sock → Option Sock
unfolding take_next deliver
drain zero s = some s
drain (suc n) s = elim (take_next s.rcv_nxt s.recv_list) [
  | none ↦ some s
  | some p ↦ on_some (drain n) (deliver p.0 (record s { recv_list = p.1 }))
]

-- The data part of `tcp_recv_data` on the socket: whether an ACK is sent, and the socket.
unfoldable pub receive : Cb → Sock → Option (Bool × Sock)
unfolding drain deliver less_than_32b
receive cb s =
    if cb.seq == s.rcv_nxt
    then on_some (λ s'. some (true, s'))
        (on_some (drain (length s.recv_list)) (deliver cb.payload s))
    else if less_than_32b s.rcv_nxt cb.seq
    then some (
      false,
      record s { recv_list = s.recv_list ++ (record { payload = cb.payload; seq = cb.seq } ∷ []) },
    )
    else some (true, s)

-- The reader is woken up where data arrived in order.
abbrev pub wake_reader : Bool → Sock → Sock
wake_reader in_order s = if in_order then record s { wait_recv = wake_sleeper s.wait_recv } else s

-- What follows the data part: the ACK, and what the packet acknowledges.
unfoldable pub finish_recv : ℕ → Cb → Tcp → Bool → Sock → Tcp
unfolding tcp_send_control_packet remove_from_send_list
finish_recv a cb t sends s =
    let in_order : Bool = cb.seq == (t.socks a).rcv_nxt in
    let t₁ = record t { socks = update t.socks a s } in
    let t₂ = if sends then tcp_send_control_packet a tcp_ack t₁ else t₁ in
    modify_sock a
      (λ s'.
        remove_from_send_list cb.ack
          (record (wake_reader in_order s') { snd_una = u32_pred cb.ack }))
      t₂

unfoldable pub tcp_recv_data : ℕ → Cb → Tcp → Option Tcp
unfolding receive finish_recv
tcp_recv_data a cb t = on_some (λ p. some (finish_recv a cb t p.0 p.1)) (receive cb (t.socks a))
