-- ===== src/Net/Tcp/States.antt =====
-- Which parts of tcp_in.c of Computer Networks/pr11-网络传输机制实验三 change the states of sockets.
use ucas_coursework.Prelude.{
  ℕ, zero, suc, ◌≡◌, refl, ◌∙◌, Bool, true, false, ◌==◌, Bool-cases, Option-cases, inl, inr, ◌⊎◌,
  ◌+◌, ◌&&◌, if◌then◌else◌, arith, update, List, [], ◌∷◌, length,
}
use ucas_coursework.Net.Tcp.{
  State, closed, listen, established, close_wait, fin_wait_2, time_wait, Sock, Tcp, Cb,
  tcp_set_state, tcp_ack, tcp_syn, Segment,
}
use ucas_coursework.Net.Tcp.Seq.{less_than_32b}
use ucas_coursework.Net.Tcp.Table.{
  tcp_bind_unhash, tcp_unhash, free_tcp_sock, tcp_hash, add_hash, add_to, hash_at, is_known,
}
use ucas_coursework.Net.Tcp.Output.{
  insert_send, init_timer, tcp_send_control_packet, remove_from_send_list, tcp_set_timewait_timer,
  reset_timer, segment_of, headers_size,
}
use ucas_coursework.Net.Tcp.Input.{
  tcp_recv_data, finish_recv, receive, u32_pred, drain, deliver, set_last, take_next,
  tcp_state_syn_sent,
}
use ucas_coursework.Net.Ring.{write_ring_buffer}
use ucas_coursework.Net.Tcp.Any.{
  Any, Any-on_some, Any-all, Any-mono, if_linked-Any, if_unlinked-Any,
}
use ucas_coursework.Net.Tcp.InOrder.{woken, finish_recv-at}
use ucas_coursework.Net.Tcp.Process.{abort, process_fin}

-- Every socket has its state still.
abbrev pub Kept : Tcp → Tcp → Type 0
Kept t t' = (b : ℕ) → (t'.socks b).state ≡ (t.socks b).state

pub insert_send-Kept :
    (a : ℕ) (pkt : Segment) (seq data_size tot_size : ℕ) (t : Tcp)
    → Kept t (insert_send a pkt seq data_size tot_size t)
unfolding insert_send init_timer
insert_send-Kept a pkt seq data_size tot_size t b = ground arith

pub tcp_send_control_packet-Kept :
    (a flags : ℕ) (t : Tcp) → Kept t (tcp_send_control_packet a flags t)
unfolding tcp_send_control_packet
tcp_send_control_packet-Kept a flags t b = ground (
  arith,
  insert_send-Kept a (segment_of (t.socks a) flags []) (t.socks a).snd_nxt 0 headers_size t b,
)

pub remove_from_send_list-state :
    (ack : ℕ) (s : Sock) → (remove_from_send_list ack s).state ≡ s.state
unfolding remove_from_send_list reset_timer
remove_from_send_list-state ack s = ground arith

pub free_tcp_sock-Kept : (a : ℕ) (t : Tcp) → Kept t (free_tcp_sock a t)
unfolding free_tcp_sock
free_tcp_sock-Kept a t b = ground arith

pub tcp_unhash-Kept : (a : ℕ) (t : Tcp) → Any (Kept t) (tcp_unhash a t)
unfolding tcp_unhash free_tcp_sock
tcp_unhash-Kept a t = if_linked-Any (Kept t) (t.socks a).hash_link _ (λ b. ground arith)

pub tcp_bind_unhash-Kept : (a : ℕ) (t : Tcp) → Any (Kept t) (tcp_bind_unhash a t)
unfolding tcp_bind_unhash free_tcp_sock
tcp_bind_unhash-Kept a t = if_linked-Any (Kept t) (t.socks a).bind_link _ (λ b. ground arith)

abbrev pub SameState : Sock → Sock → Type 0
SameState s s' = s'.state ≡ s.state

pub deliver-state : (payload : List ℕ) (s : Sock) → Any (SameState s) (deliver payload s)
unfolding deliver
deliver-state [] s = refl
deliver-state (b ∷ bytes) s =
    Any-on_some (λ r. Unit {0}) (SameState s) _ (write_ring_buffer (b ∷ bytes) s.rcv_buf)
      (Any-all (write_ring_buffer (b ∷ bytes) s.rcv_buf)) (λ r u. refl)

pub drain-state : (n : ℕ) (s : Sock) → Any (SameState s) (drain n s)
unfolding drain
drain-state zero s = refl
drain-state (suc n) s = elim (Option-cases (take_next s.rcv_nxt s.recv_list)) [
  | inl idle ↦ rw (idle, drain) refl
  | inr ((payload, rest), e) ↦
      rw (e, drain)
        (Any-on_some (SameState s) (SameState s) (drain n)
          (deliver payload (record s { recv_list = rest }))
          (deliver-state payload (record s { recv_list = rest }))
          (λ s₁ h.
            Any-mono (SameState s₁) (SameState s) (drain n s₁) (drain-state n s₁)
              (λ s₂ h'. h' ∙ h)))
]

pub receive-state : (cb : Cb) (s : Sock) → Any (λ p. SameState s p.1) (receive cb s)
unfolding receive
receive-state cb s = elim (Bool-cases (cb.seq == s.rcv_nxt)) [
  | inl next ↦ rw next (
      Any-on_some (SameState s) (λ p. SameState s p.1) _ _
        (Any-on_some (SameState s) (SameState s) (drain (length s.recv_list)) (deliver cb.payload s)
          (deliver-state cb.payload s)
          (λ s₁ h.
            Any-mono (SameState s₁) (SameState s) (drain (length s.recv_list) s₁)
              (drain-state (length s.recv_list) s₁) (λ s₂ h'. h' ∙ h)))
        (λ s' h. h))
  | inr other ↦ elim (Bool-cases (less_than_32b s.rcv_nxt cb.seq)) [
    | inl ahead ↦ rw (other, ahead) refl
    | inr behind ↦ rw (other, behind) refl
  ]
]

pub woken-state : (b : Bool) (una : ℕ) (s : Sock) → (woken b una s).state ≡ s.state
woken-state true una s = refl
woken-state false una s = refl

pub finish_recv-Kept :
    (a : ℕ) (cb : Cb) (t : Tcp) (b : Bool) (s : Sock)
    → s.state ≡ (t.socks a).state
    → Kept t (finish_recv a cb t b s)
unfolding finish_recv tcp_send_control_packet
finish_recv-Kept a cb t b s h c = elim (Bool-cases (c == a)) [
  | inl here ↦
      let e : c ≡ a = ground arith in
      rw (e, finish_recv-at a cb t b s)
        (remove_from_send_list-state cb.ack
            (woken (cb.seq == (t.socks a).rcv_nxt) (u32_pred cb.ack) s)
          ∙ woken-state (cb.seq == (t.socks a).rcv_nxt) (u32_pred cb.ack) s
          ∙ h)
  | inr apart ↦ rw apart (untouched b apart)
]
  where
    untouched :
        (b : Bool)
        → (c == a) ≡ false
        → ((if b
              then tcp_send_control_packet a tcp_ack (record t { socks = update t.socks a s })
              else record t { socks = update t.socks a s }).socks
            c).state
          ≡ (t.socks c).state
    untouched true apart = rw apart refl
    untouched false apart = rw apart refl

pub tcp_recv_data-Kept : (a : ℕ) (cb : Cb) (t : Tcp) → Any (Kept t) (tcp_recv_data a cb t)
unfolding tcp_recv_data
tcp_recv_data-Kept a cb t =
    Any-on_some (λ p. SameState (t.socks a) p.1) (Kept t) _ (receive cb (t.socks a))
      (receive-state cb (t.socks a)) (λ p h. finish_recv-Kept a cb t p.0 p.1 h)

-- The socket `a` has the state `state`, and the others have theirs still.
abbrev pub Moved : ℕ → State → Tcp → Tcp → Type 0
Moved a state t t' = (b : ℕ) → (t'.socks b).state ≡ (if b == a then state else (t.socks b).state)

pub abort-Moved : (a : ℕ) (t : Tcp) → Any (Moved a closed t) (abort a t)
unfolding abort
abort-Moved a t =
    Any-on_some (Moved a closed t) (Moved a closed t) (tcp_unhash a)
      (tcp_bind_unhash a (tcp_set_state a closed t))
      (Any-mono (Kept (tcp_set_state a closed t)) (Moved a closed t)
        (tcp_bind_unhash a (tcp_set_state a closed t))
        (tcp_bind_unhash-Kept a (tcp_set_state a closed t))
        (λ t' h b. h b ∙ (unfold tcp_set_state in ground arith)))
      (λ t' h.
        Any-mono (Kept t') (Moved a closed t) (tcp_unhash a t') (tcp_unhash-Kept a t')
          (λ t'' h' b. h' b ∙ h b))

pub established-fin :
    (a : ℕ) (cb : Cb) (t : Tcp) → Moved a close_wait t (process_fin established a cb t)
unfolding process_fin tcp_set_state set_last tcp_send_control_packet
established-fin a cb t b = ground arith

pub fin_wait_2-fin :
    (a : ℕ) (cb : Cb) (t : Tcp) → Moved a time_wait t (process_fin fin_wait_2 a cb t)
unfolding process_fin tcp_set_state tcp_send_control_packet tcp_set_timewait_timer
fin_wait_2-fin a cb t b = ground arith

pub syn_sent-Moved :
    (a : ℕ) (cb : Cb) (t : Tcp)
    → Moved a established t (tcp_state_syn_sent a cb t) ⊎ Kept t (tcp_state_syn_sent a cb t)
unfolding tcp_state_syn_sent tcp_set_state tcp_send_control_packet
syn_sent-Moved a cb t =
    elim (Bool-cases (cb.flags == tcp_syn + tcp_ack && cb.ack == (t.socks a).snd_nxt)) [
      | inl answered ↦ rw answered (inl (λ b. ground arith))
      | inr other ↦ rw other (inr (λ b. refl))
    ]

pub add_to-socks :
    (state : State) (a : ℕ) (s : Sock) (t : Tcp) → (add_to state a s t).socks ≡ t.socks
add_to-socks listen a s t = refl
add_to-socks closed a s t = refl
add_to-socks state a s t = refl

add_hash-Kept : (a : ℕ) (t : Tcp) → Kept t (add_hash a t)
unfolding add_hash
add_hash-Kept a t b = rw (add_to-socks (t.socks a).state a (t.socks a) t) (ground arith)

hash_at-Kept : (state : State) (a : ℕ) (t : Tcp) → Any (λ p. Kept t p.1) (hash_at state a t)
unfolding hash_at
hash_at-Kept closed a t = λ b. refl
hash_at-Kept listen a t =
    if_unlinked-Any (λ p. Kept t p.1) (t.socks a).hash_link (true, add_hash a t) (add_hash-Kept a t)
hash_at-Kept state a t = elim (Bool-cases (is_known a t)) [
  | inl known ↦ rw known (λ b. refl)
  | inr new ↦ rw new (
      if_unlinked-Any (λ p. Kept t p.1) (t.socks a).hash_link (true, add_hash a t)
        (add_hash-Kept a t))
]

pub tcp_hash-Kept : (a : ℕ) (t : Tcp) → Any (λ p. Kept t p.1) (tcp_hash a t)
unfolding tcp_hash
tcp_hash-Kept a t = hash_at-Kept (t.socks a).state a t
