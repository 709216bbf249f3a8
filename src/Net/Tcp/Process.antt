-- ===== src/Net/Tcp/Process.antt =====
-- `tcp_process` of tcp_in.c and `handle_tcp_packet` of tcp.c, Computer Networks/pr11-网络传输机制实验三.
use ucas_coursework.Prelude.{ℕ, ◌+◌, Option, some, ◌==◌, ◌&&◌, not, if◌then◌else◌, on_some}
use ucas_coursework.Net.Tcp.{
  State, closed, listen, syn_recv, syn_sent, established, close_wait, last_ack, fin_wait_1,
  fin_wait_2, time_wait, Cb, Sock, Tcp, modify_sock, tcp_set_state, u32, has_flag, tcp_fin, tcp_syn,
  tcp_rst, tcp_ack,
}
use ucas_coursework.Net.Tcp.Seq.{less_than_32b}
use ucas_coursework.Net.Tcp.Table.{tcp_bind_unhash, tcp_unhash, tcp_sock_lookup}
use ucas_coursework.Net.Tcp.Output.{
  tcp_send_control_packet, tcp_send_reset, tcp_set_timewait_timer, remove_from_send_list,
}
use ucas_coursework.Net.Tcp.Input.{
  u32_pred, set_last, tcp_state_closed, tcp_state_listen, tcp_state_syn_sent, tcp_state_syn_recv,
  tcp_recv_data,
}

-- The connection ends at once.
unfoldable pub abort : ℕ → Tcp → Option Tcp
unfolding tcp_set_state tcp_bind_unhash tcp_unhash
abort a t = on_some (tcp_unhash a) (tcp_bind_unhash a (tcp_set_state a closed t))

-- The state after a packet that acknowledges all that was sent.
unfoldable pub after_ack : State → State
after_ack fin_wait_1 = fin_wait_2
after_ack last_ack = closed
after_ack state = state

-- The numbers that a FIN leaves.
abbrev pub take_fin : Cb → Sock → Sock
take_fin cb s = record s {
  rcv_nxt = u32 (cb.seq + 1);
  snd_una = if less_than_32b s.snd_una (u32_pred cb.ack) then u32_pred cb.ack else s.snd_una;
}

unfoldable pub process_fin : State → ℕ → Cb → Tcp → Tcp
unfolding set_last tcp_set_state tcp_send_control_packet tcp_set_timewait_timer less_than_32b
process_fin established a cb t =
    tcp_send_control_packet a tcp_ack
      (modify_sock a (take_fin cb) (tcp_set_state a close_wait (set_last t)))
process_fin fin_wait_2 a cb t =
    tcp_set_timewait_timer a (
      tcp_send_control_packet a tcp_ack (modify_sock a (take_fin cb) (tcp_set_state a time_wait t)))
process_fin state a cb t = t

-- The rest of `tcp_process` for a connection, behind the acknowledgement of a FIN that sets `state`.
unfoldable pub open_at : State → ℕ → Cb → Tcp → Option Tcp
unfolding tcp_set_state process_fin tcp_recv_data remove_from_send_list
open_at state a cb t =
    let t₁ = tcp_set_state a state t in
    if has_flag tcp_fin cb.flags
    then some (process_fin state a cb t₁)
    else if cb.flags == tcp_ack
    then some (
        modify_sock a (λ s. remove_from_send_list cb.ack (record s { snd_una = u32_pred cb.ack }))
          t₁)
    else tcp_recv_data a cb t₁

unfoldable pub process_open : ℕ → Cb → Tcp → Option Tcp
unfolding after_ack open_at
process_open a cb t =
    let s = t.socks a in open_at (if cb.ack == s.snd_nxt then after_ack s.state else s.state) a cb t

unfoldable pub process_checked : State → ℕ → Cb → Tcp → Option Tcp
unfolding tcp_state_syn_recv process_open
process_checked syn_recv a cb t = tcp_state_syn_recv a cb t
process_checked state a cb t = process_open a cb t

-- The packet of a connection that has answered the first SYN.
unfoldable pub process_answered : State → ℕ → Cb → Tcp → Option Tcp
unfolding abort tcp_send_reset process_checked
process_answered state a cb t =
    if has_flag tcp_rst cb.flags
    then abort a t
    else if not (has_flag tcp_ack cb.flags) && not (has_flag tcp_syn cb.flags)
    then abort a (tcp_send_reset cb t)
    else process_checked state a cb t

unfoldable pub process_at : State → ℕ → ℕ → Cb → Tcp → Option Tcp
unfolding tcp_state_closed tcp_state_listen tcp_state_syn_sent process_answered
process_at closed iss a cb t = some (tcp_state_closed cb t)
process_at listen iss a cb t = tcp_state_listen iss a cb t
process_at syn_sent iss a cb t = some (tcp_state_syn_sent a cb t)
process_at state iss a cb t = process_answered state a cb t

unfoldable pub tcp_process : ℕ → ℕ → Cb → Tcp → Option Tcp
unfolding process_at
tcp_process iss a cb t = process_at (t.socks a).state iss a cb t

-- A packet with a valid checksum; one for which there is no socket is handed on as NULL.
unfoldable pub handle_tcp_cb : ℕ → Cb → Tcp → Option Tcp
unfolding tcp_sock_lookup tcp_process
handle_tcp_cb iss cb t = on_some (λ a. tcp_process iss a cb t) (tcp_sock_lookup cb t)
