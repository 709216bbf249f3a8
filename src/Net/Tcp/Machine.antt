-- ===== src/Net/Tcp/Machine.antt =====
-- The transitions of the TCP state machine of tcp_in.c, Computer Networks/pr11-网络传输机制实验三.
use ucas_coursework.Prelude.{
  ℕ, ◌≡◌, ◌≢◌, refl, ◌∙◌, Bool, Option, some, ◌==◌, Bool-cases, inl, inr, ◌&&◌, not, if◌then◌else◌,
  arith,
}
use ucas_coursework.Net.Tcp.{
  State, closed, listen, syn_recv, syn_sent, established, fin_wait_2, Tcp, Cb, tcp_set_state,
  tcp_ack, has_flag, tcp_syn, tcp_fin, tcp_rst,
}
use ucas_coursework.Net.Tcp.Output.{tcp_send_reset}
use ucas_coursework.Net.Tcp.Input.{u32_pred, u32_pred, tcp_state_syn_sent, tcp_state_closed}
use ucas_coursework.Net.Tcp.Process.{
  abort, after_ack, process_fin, open_at, process_open, process_checked, process_answered,
  process_at, tcp_process,
}
use ucas_coursework.Net.Tcp.Any.{Any, Any-some, Any-mono}
use ucas_coursework.Net.Tcp.States.{
  Kept, Moved, abort-Moved, established-fin, fin_wait_2-fin, syn_sent-Moved, tcp_recv_data-Kept,
  remove_from_send_list-state,
}
use ucas_coursework.Net.Tcp.Edges.{
  IsAnswered, reset, connected, fin_state, Stepped, same-Stepped, open_edge,
}
use ucas_coursework.Net.Tcp.Passive.{syn_recv-Stepped, listen-Stepped}

process_fin-Moved :
    (state : State) (a : ℕ) (cb : Cb) (t t' : Tcp)
    → Moved a state t t'
    → Moved a (fin_state state) t (process_fin state a cb t')
unfolding process_fin
process_fin-Moved established a cb t t' h b = ground (arith, h b, established-fin a cb t' b)
process_fin-Moved fin_wait_2 a cb t t' h b = ground (arith, h b, fin_wait_2-fin a cb t' b)
process_fin-Moved closed a cb t t' h b = h b
process_fin-Moved state a cb t t' h b = h b

-- The packet of an open connection, with `state` behind the first step.
open-Moved :
    (state : State) (a : ℕ) (cb : Cb) (t : Tcp)
    → Any
        (λ t'. Moved a (if has_flag tcp_fin cb.flags then fin_state state else state) t t')
        (open_at state a cb t)
unfolding open_at
open-Moved state a cb t = elim (Bool-cases (has_flag tcp_fin cb.flags)) [
  | inl fin ↦ rw fin (process_fin-Moved state a cb t (tcp_set_state a state t) set)
  | inr plain ↦ elim (Bool-cases (cb.flags == tcp_ack)) [
    | inl ack ↦
        rw (plain, ack)
          (λ b. ground (
            arith,
            set b,
            remove_from_send_list-state cb.ack
                (record ((tcp_set_state a state t).socks a) { snd_una = u32_pred cb.ack }),
          ))
    | inr more ↦
        rw (plain, more)
          (Any-mono (Kept (tcp_set_state a state t)) (Moved a state t) _
            (tcp_recv_data-Kept a cb (tcp_set_state a state t)) (λ t' k b. k b ∙ set b))
  ]
]
  where
    set : Moved a state t (tcp_set_state a state t)
    set b = unfold tcp_set_state in ground arith

open-Stepped :
    (a : ℕ) (cb : Cb) (t : Tcp)
    → IsAnswered (t.socks a).state
    → Any (Stepped a t) (process_open a cb t)
unfolding process_open
open-Stepped a cb t h =
    let acked : Bool = cb.ack == (t.socks a).snd_nxt in
    let state : State = if acked then after_ack (t.socks a).state else (t.socks a).state in
    Any-mono _ (Stepped a t) (open_at state a cb t) (open-Moved state a cb t) (λ t' moved. record {
      state = if has_flag tcp_fin cb.flags then fin_state state else state;
      edge = open_edge acked (has_flag tcp_fin cb.flags) (t.socks a).state h;
      moved = λ b apart. moved b;
    })

aborted :
    (a : ℕ) (t t₀ : Tcp) (o : Option Tcp)
    → IsAnswered (t.socks a).state
    → Kept t t₀
    → Any (Moved a closed t₀) o
    → Any (Stepped a t) o
aborted a t t₀ o h k m = Any-mono (Moved a closed t₀) (Stepped a t) o m (λ t' moved. record {
  state = closed;
  edge = reset _ h;
  moved = λ b apart. ground (arith, moved b, k b);
})

answered-Stepped :
    (state : State) (a : ℕ) (cb : Cb) (t : Tcp)
    → IsAnswered (t.socks a).state
    → Any (Stepped a t) (process_checked state a cb t)
    → Any (Stepped a t) (process_answered state a cb t)
unfolding process_answered tcp_send_reset
answered-Stepped state a cb t h checked = elim (Bool-cases (has_flag tcp_rst cb.flags)) [
  | inl rst ↦ rw rst (aborted a t t (abort a t) h (λ b. refl) (abort-Moved a t))
  | inr no_rst ↦
      elim (Bool-cases (not (has_flag tcp_ack cb.flags) && not (has_flag tcp_syn cb.flags))) [
        | inl bare ↦
            rw (no_rst, bare)
              (aborted a t (tcp_send_reset cb t) (abort a (tcp_send_reset cb t)) h (λ b. refl)
                (abort-Moved a (tcp_send_reset cb t)))
        | inr ok ↦ rw (no_rst, ok) checked
      ]
]

process_at-Stepped :
    (state : State) (iss a : ℕ) (cb : Cb) (t : Tcp)
    → a ≢ t.next_sock
    → (t.socks a).state ≡ state
    → Any (Stepped a t) (process_at state iss a cb t)
unfolding process_at process_checked tcp_state_closed tcp_send_reset
process_at-Stepped closed iss a cb t old e = same-Stepped a t (tcp_state_closed cb t) (λ b. refl)
process_at-Stepped listen iss a cb t old e = listen-Stepped iss a cb t old e
process_at-Stepped syn_sent iss a cb t old e = elim (syn_sent-Moved a cb t) [
  | inl moved ↦ record { state = established; edge = rw e connected; moved = λ b apart. moved b }
  | inr kept ↦ same-Stepped a t (tcp_state_syn_sent a cb t) kept
]
process_at-Stepped syn_recv iss a cb t old e =
    answered-Stepped syn_recv a cb t (rw e tt) (syn_recv-Stepped a cb t e)
process_at-Stepped state iss a cb t old e =
    answered-Stepped state a cb t (rw e tt) (open-Stepped a cb t (rw e tt))

-- The state of a socket in use changes with a packet for it only along the edges, whatever the packet,
-- and the state of every other socket in use stays as it is.
pub tcp_process-Stepped :
    (iss a : ℕ) (cb : Cb) (t t' : Tcp)
    → a ≢ t.next_sock
    → tcp_process iss a cb t ≡ some t'
    → Stepped a t t'
unfolding tcp_process
tcp_process-Stepped iss a cb t t' old e =
    Any-some (Stepped a t) (tcp_process iss a cb t) t'
      (process_at-Stepped (t.socks a).state iss a cb t old refl) e
