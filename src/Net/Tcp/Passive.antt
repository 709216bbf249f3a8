-- ===== src/Net/Tcp/Passive.antt =====
-- The steps of the listening side: `tcp_state_listen` and `tcp_state_syn_recv` of tcp_in.c,
-- Computer Networks/pr11-网络传输机制实验三.
use ucas_coursework.Prelude.{
  ℕ, ◌≡◌, ◌≢◌, refl, ◌∙◌, Bool, true, false, Option, none, some, ◌==◌, Bool-cases, Option-cases,
  inl, inr, ◌+◌, if◌then◌else◌, ltb, arith, length,
}
use ucas_coursework.Net.Tcp.{
  listen, syn_recv, established, Sock, Tcp, Cb, tcp_set_state, tcp_ack, u16, alloc_tcp_sock,
  wake_sleeper, modify_sock, has_flag, tcp_syn,
}
use ucas_coursework.Net.Tcp.Table.{tcp_hash}
use ucas_coursework.Net.Tcp.Output.{tcp_send_control_packet, remove_from_send_list}
use ucas_coursework.Net.Tcp.Input.{
  u32_pred, u32_pred, deliver, tcp_state_syn_recv, tcp_state_listen, finish_syn_recv,
  established_by, tcp_sock_accept_enqueue, requested, with_sock,
}
use ucas_coursework.Net.Tcp.Any.{Any, Any-on_some, Any-mono, Any-and_then}
use ucas_coursework.Net.Tcp.States.{
  Kept, Moved, remove_from_send_list-state, tcp_send_control_packet-Kept, deliver-state, SameState,
  tcp_hash-Kept,
}
use ucas_coursework.Net.Tcp.Edges.{stay, passively_connected, Stepped}

-- What ends the handling of the last packet of a handshake.
finished-Kept :
    (p a ack : ℕ) (t : Tcp)
    → Kept t (
        modify_sock p
          (λ s. record s { wait_accept = wake_sleeper s.wait_accept })
          (modify_sock a (remove_from_send_list ack) t))
finished-Kept p a ack t b = ground (arith, remove_from_send_list-state ack (t.socks a))

finish_syn_recv-Kept : (p a : ℕ) (cb : Cb) (t : Tcp) → Any (Kept t) (finish_syn_recv p a cb t)
unfolding finish_syn_recv
finish_syn_recv-Kept p a cb t =
    Any-on_some (Kept t) (Kept t) _ (with_sock a t (deliver cb.payload (t.socks a)))
      (delivered (deliver cb.payload (t.socks a)) (deliver-state cb.payload (t.socks a)))
      (λ t' h b.
        finished-Kept p a cb.ack
          (if ltb 0 (length cb.payload) then tcp_send_control_packet a tcp_ack t' else t') b
        ∙ answered t' (ltb 0 (length cb.payload)) b
        ∙ h b)
  where
    delivered : (o : Option Sock) → Any (SameState (t.socks a)) o → Any (Kept t) (with_sock a t o)
    delivered none h = tt
    delivered (some s) h = λ b. ground arith

    answered :
        (t' : Tcp) (some_data : Bool)
        → Kept t' (if some_data then tcp_send_control_packet a tcp_ack t' else t')
    answered t' true b = tcp_send_control_packet-Kept a tcp_ack t' b
    answered t' false b = refl

-- The stack where the child is established and in the queue of its parent.
abbrev enqueued : ℕ → ℕ → Cb → Tcp → Tcp
enqueued p a cb t =
    modify_sock a (λ s. record s { snd_una = u32_pred cb.ack; rcv_wnd = u16 cb.rwnd })
      (tcp_set_state a established (tcp_sock_accept_enqueue p a t))

enqueued-Moved : (p a : ℕ) (cb : Cb) (t : Tcp) → Moved a established t (enqueued p a cb t)
unfolding tcp_set_state tcp_sock_accept_enqueue
enqueued-Moved p a cb t b = ground arith

pub syn_recv-Stepped :
    (a : ℕ) (cb : Cb) (t : Tcp)
    → (t.socks a).state ≡ syn_recv
    → Any (Stepped a t) (tcp_state_syn_recv a cb t)
unfolding tcp_state_syn_recv established_by
syn_recv-Stepped a cb t is = elim (Bool-cases (cb.ack == (t.socks a).snd_nxt)) [
  | inr other ↦
      rw other
        (record { state = (t.socks a).state; edge = stay _; moved = λ b apart. ground arith })
  | inl acked ↦ elim (Option-cases (t.socks a).parent) [
    | inl orphan ↦ rw (acked, orphan, established_by) tt
    | inr (p, e) ↦
        rw (acked, e, established_by)
          (Any-mono (Kept (enqueued p a cb t)) (Stepped a t)
            (finish_syn_recv p a cb (enqueued p a cb t))
            (finish_syn_recv-Kept p a cb (enqueued p a cb t))
            (λ t' k. record {
              state = established;
              edge = rw is passively_connected;
              moved = λ b apart. k b ∙ enqueued-Moved p a cb t b;
            }))
  ]
]

requested-state :
    (iss a : ℕ) (cb : Cb) (t : Tcp) (b : ℕ)
    → b ≢ t.next_sock
    → ((requested iss a cb t).socks b).state
      ≡ (if b == a then (t.socks a).state else (t.socks b).state)
unfolding requested tcp_set_state alloc_tcp_sock
requested-state iss a cb t b apart = ground arith

pub listen-Stepped :
    (iss a : ℕ) (cb : Cb) (t : Tcp)
    → a ≢ t.next_sock
    → (t.socks a).state ≡ listen
    → Any (Stepped a t) (tcp_state_listen iss a cb t)
unfolding tcp_state_listen
listen-Stepped iss a cb t old is = elim (Bool-cases (has_flag tcp_syn cb.flags)) [
  | inr other ↦
      rw other
        (record { state = (t.socks a).state; edge = stay _; moved = λ b apart. ground arith })
  | inl request ↦ rw request (
      Any-and_then (λ p. Kept (requested iss a cb t) p.1) (Stepped a t)
        (tcp_send_control_packet t.next_sock (tcp_syn + tcp_ack))
        (tcp_hash t.next_sock (requested iss a cb t))
        (tcp_hash-Kept t.next_sock (requested iss a cb t))
        (λ p k. record {
          state = (t.socks a).state;
          edge = stay _;
          moved = λ b apart.
              tcp_send_control_packet-Kept t.next_sock (tcp_syn + tcp_ack) p.1 b
              ∙ k b
              ∙ requested-state iss a cb t b apart;
        }))
]
