-- ===== src/Net/Tcp/Api.antt =====
-- The calls of an application, tcp_sock.c of Computer Networks/pr11-网络传输机制实验三, each up to the place where it
-- sleeps and, as a step of its own, from there on.
use ucas_coursework.Prelude.{
  ℕ, zero, suc, ◌+◌, ◌-◌, ◌%◌, ◌^◌, Bool, true, false, Option, none, some, List, [], ◌∷◌, ◌==◌, ltb,
  leb, if◌then◌else◌, length, take, drop, on_some, is_nil,
}
use ucas_coursework.Net.Ip.{RtEntry, longest_prefix_match}
use ucas_coursework.Net.Ring.{ring_buffer_empty, read_ring_buffer}
use ucas_coursework.Net.Tcp.{
  State, closed, listen, syn_recv, syn_sent, established, close_wait, last_ack, fin_wait_1, Wait,
  Sock, Tcp, modify_sock, tcp_set_state, tcp_fin, tcp_syn, tcp_ack,
}
use ucas_coursework.Net.Tcp.Seq.{less_or_equal_32b}
use ucas_coursework.Net.Tcp.Table.{
  free_tcp_sock, tcp_sock_set_sport, tcp_get_port, tcp_bind_hash, tcp_hash, tcp_unhash,
}
use ucas_coursework.Net.Tcp.Output.{tcp_send_control_packet, tcp_send_packet}
use ucas_coursework.Net.Tcp.Input.{u32_pred, and_then}

-- `sleep_on` up to the wait, and after it, which needs a notification.
unfoldable pub begin_sleep : Wait → Wait
begin_sleep w = record w { sleep = true }

unfoldable pub end_sleep : Wait → Option Wait
end_sleep w = if w.notified then some (record { notified = false; sleep = false }) else none

unfoldable pub tcp_sock_bind : ℕ → ℕ → Tcp → Option (Bool × Tcp)
unfolding tcp_sock_set_sport
tcp_sock_bind a port t = tcp_sock_set_sport a port t

-- The SYN is sent and the caller sleeps.
unfoldable pub await_answer : ℕ → Bool × Tcp → Option (Bool × Tcp)
unfolding tcp_send_control_packet begin_sleep
await_answer a p = some (
  true,
  modify_sock a (λ s. record s { wait_connect = begin_sleep s.wait_connect })
      (tcp_send_control_packet a tcp_syn p.1),
)

-- The part of `tcp_sock_connect` behind the binding of the port.
unfoldable pub send_syn : ℕ → ℕ → Tcp → Option (Bool × Tcp)
unfolding tcp_set_state tcp_hash await_answer
send_syn iss a t = on_some (await_answer a) (
    tcp_hash a (
      tcp_set_state a syn_sent
        (modify_sock a (λ s. record s { iss = iss; snd_una = u32_pred iss; snd_nxt = iss }) t)))

-- `tcp_sock_connect` with an interface and a port found; the result is 1 for false.
unfoldable pub start_connect : ℕ → ℕ → ℕ → ℕ → ℕ → ℕ → Tcp → Option (Bool × Tcp)
unfolding tcp_bind_hash send_syn
start_connect iss sip sport a ip port t = on_some (send_syn iss a) (
    tcp_bind_hash a
      (modify_sock a (λ s. record s { sip = sip; sport = sport; dip = ip; dport = port }) t))

-- `rtable` is the routing table; no route is a use of NULL.
unfoldable pub tcp_sock_connect : ℕ → List RtEntry → ℕ → ℕ → ℕ → Tcp → Option (Bool × Tcp)
unfolding longest_prefix_match tcp_get_port start_connect
tcp_sock_connect iss rtable a ip port t = elim (longest_prefix_match ip rtable) [
  | none ↦ none
  | some entry ↦
      if tcp_get_port t == 0
      then some (false, modify_sock a (λ s. record s { sip = entry.iface.ip; sport = 0 }) t)
      else start_connect iss entry.iface.ip (tcp_get_port t) a ip port t
]

unfoldable pub tcp_sock_listen : ℕ → ℕ → Tcp → Option Tcp
unfolding tcp_set_state tcp_hash
tcp_sock_listen a backlog t =
    and_then (λ t'. t')
      (tcp_hash a (tcp_set_state a listen (modify_sock a (λ s. record s { backlog = backlog }) t)))

unfoldable pub tcp_sock_accept_queue_full : Sock → Bool
tcp_sock_accept_queue_full s = leb s.backlog s.accept_backlog

-- With the queue empty, the queue's own head would be taken for a socket.
unfoldable pub tcp_sock_accept_dequeue : ℕ → Tcp → Option (ℕ × Tcp)
tcp_sock_accept_dequeue a t = elim (t.socks a).accept_queue [
  | [] ↦ none
  | c ∷ cs ↦ some (
    c,
    modify_sock a (λ s. record s { accept_queue = cs; accept_backlog = s.accept_backlog - 1 }) t,
  )
]

-- What `tcp_sock_accept` returns, or that it sleeps.
pub data Accept : Type 0 where
  accepted : ℕ → Accept
  sleeps : Accept

unfoldable pub tcp_sock_accept : ℕ → Tcp → Option (Accept × Tcp)
unfolding tcp_sock_accept_dequeue begin_sleep
tcp_sock_accept a t =
    if ltb 0 (t.socks a).accept_backlog
    then on_some (λ p. some (accepted p.0, p.1)) (tcp_sock_accept_dequeue a t)
    else some (sleeps, modify_sock a (λ s. record s { wait_accept = begin_sleep s.wait_accept }) t)

-- `tcp_sock_accept` from its sleep on; `none` also where it is not woken up.
unfoldable pub resume_accept : ℕ → Tcp → Option (ℕ × Tcp)
unfolding end_sleep tcp_sock_accept_dequeue
resume_accept a t =
    on_some (λ w. tcp_sock_accept_dequeue a (modify_sock a (λ s. record s { wait_accept = w }) t))
      (end_sleep (t.socks a).wait_accept)

-- One turn of the loop that clears the listen queue.
unfoldable pub clear_child : ℕ → Tcp → Option Tcp
unfolding tcp_unhash free_tcp_sock
clear_child c t = elim (t.socks c).state [
  | syn_recv ↦
      on_some (λ t'. some (free_tcp_sock c t'))
        (tcp_unhash c (modify_sock c (λ s. record s { parent = none }) t))
  | other ↦ some t
]

unfoldable pub clear_children : List ℕ → Tcp → Option Tcp
unfolding clear_child
clear_children [] t = some t
clear_children (c ∷ cs) t = on_some (clear_children cs) (clear_child c t)

unfoldable pub tcp_sock_clear_listen_queue : ℕ → Tcp → Option Tcp
unfolding clear_children
tcp_sock_clear_listen_queue a t =
    clear_children (t.socks a).listen_queue (modify_sock a (λ s. record s { listen_queue = [] }) t)

-- A FIN, and the state that waits for its acknowledgement.
abbrev pub send_fin : State → ℕ → Tcp → Tcp
send_fin state a t = tcp_set_state a state (tcp_send_control_packet a (tcp_fin + tcp_ack) t)

unfoldable pub tcp_sock_close : ℕ → Tcp → Option Tcp
unfolding tcp_sock_clear_listen_queue tcp_unhash tcp_set_state tcp_send_control_packet
tcp_sock_close a t = elim (t.socks a).state [
  | listen ↦
      on_some (λ t'. some (tcp_set_state a closed t'))
        (on_some (tcp_unhash a) (tcp_sock_clear_listen_queue a t))
  | established ↦ some (send_fin fin_wait_1 a t)
  | close_wait ↦ some (send_fin last_ack a t)
  | other ↦ some t
]

-- 1500 less the headers: the most that a packet carries.
abbrev pub segment_size : ℕ
segment_size = 1446

-- `send_length` for a window that is open and what is left to go.
unfoldable pub send_length : ℕ → ℕ → ℕ
unfolding less_or_equal_32b
send_length snd_wnd len_to_go =
    let fits : ℕ = if less_or_equal_32b snd_wnd (len_to_go % 2 ^ 32) then snd_wnd else len_to_go in
    if ltb fits segment_size then fits else segment_size

-- `tcp_sock_write` returns, or it sleeps with these bytes left to go.
pub data Write : Type 0 where
  returned : Write
  asleep : List ℕ → Write

-- At most `n` turns of the loop of `tcp_sock_write`, up to its end or to where it sleeps; `bytes` is
-- what is left to go.
unfoldable pub write_loop : ℕ → ℕ → List ℕ → Tcp → Write × Tcp
unfolding send_length tcp_send_packet begin_sleep
write_loop zero a bytes t = (asleep bytes, t)
write_loop (suc n) a bytes t =
    let len : ℕ = send_length (t.socks a).snd_wnd (length bytes) in
    let sent = tcp_send_packet a (take len bytes) t in
    if ltb 0 (t.socks a).snd_wnd
    then (elim (leb (length bytes) len) [
      | true ↦ (returned, sent)
      | false ↦ write_loop n a (drop len bytes) sent
    ])
    else (asleep bytes, modify_sock a (λ s. record s { wait_send = begin_sleep s.wait_send }) t)

-- `tcp_sock_write` up to its end or to where it sleeps.
unfoldable pub tcp_sock_write : ℕ → List ℕ → Tcp → Write × Tcp
unfolding write_loop
tcp_sock_write a bytes t = write_loop (length bytes + 1) a bytes t

-- `tcp_sock_write` from its sleep on, with what was left; `none` where it is not woken up.
unfoldable pub resume_write : ℕ → List ℕ → Tcp → Option (Write × Tcp)
unfolding end_sleep tcp_sock_write
resume_write a bytes t =
    on_some (λ w. some (tcp_sock_write a bytes (modify_sock a (λ s. record s { wait_send = w }) t)))
      (end_sleep (t.socks a).wait_send)

-- What `tcp_sock_read` returns, or that it sleeps. The mutex of the buffer is left out: the source keeps
-- it where the end of the connection came during the sleep.
pub data Read : Type 0 where
  returns : List ℕ → Read
  minus_one : Read
  blocks : Read

abbrev pub ended : List ℕ → Read
ended bytes = if is_nil bytes then minus_one else returns bytes

-- From the sleep on; without the end of the connection an empty read returns 0.
unfoldable pub read_now : ℕ → ℕ → Tcp → Read × Tcp
unfolding read_ring_buffer
read_now a len t =
    let (bytes, r) = read_ring_buffer len (t.socks a).rcv_buf in
    (if t.last then ended bytes else returns bytes, modify_sock a (λ s. record s { rcv_buf = r }) t)

unfoldable pub tcp_sock_read : ℕ → ℕ → Tcp → Read × Tcp
unfolding read_now ring_buffer_empty begin_sleep
tcp_sock_read a len t =
    let now = read_now a len t in
    if t.last
    then now
    else if ring_buffer_empty (t.socks a).rcv_buf
    then (blocks, modify_sock a (λ s. record s { wait_recv = begin_sleep s.wait_recv }) t)
    else now

-- `tcp_sock_read` from its sleep on; `none` where it is not woken up.
unfoldable pub resume_read : ℕ → ℕ → Tcp → Option (Read × Tcp)
unfolding end_sleep read_now
resume_read a len t =
    on_some (λ w. some (read_now a len (modify_sock a (λ s. record s { wait_recv = w }) t)))
      (end_sleep (t.socks a).wait_recv)
