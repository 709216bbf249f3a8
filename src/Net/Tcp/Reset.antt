-- ===== src/Net/Tcp/Reset.antt =====
-- What a reset does to the child of a listening socket, tcp_in.c of
-- Computer Networks/pr11-网络传输机制实验三.
use ucas_coursework.Prelude.{
  ℕ, ◌+◌, ◌≡◌, ◌≢◌, refl, true, none, some, Bool-cases, inl, inr, ==_refl, arith,
}
use ucas_coursework.Net.Tcp.{
  listen, syn_recv, Sock, Tcp, Cb, never, has_flag, tcp_rst, tcp_syn, tcp_ack, tcp_set_state,
  alloc_tcp_sock, fresh_sock,
}
use ucas_coursework.Net.Tcp.Table.{tcp_bind_unhash, tcp_hash, hash_at, add_hash, is_known}
use ucas_coursework.Net.Tcp.Output.{tcp_send_control_packet, insert_send, init_timer}
use ucas_coursework.Net.Tcp.Input.{tcp_state_listen, child_sock, requested}
use ucas_coursework.Net.Tcp.Process.{abort, process_answered, process_at, tcp_process}
use ucas_coursework.Net.Tcp.Any.{Any, Any-and_then, Any-some, if_unlinked-Any}
use ucas_coursework.Net.Tcp.States.{add_to-socks}

-- A socket that waits for the end of a handshake and was never bound.
pub record IsChild (s : Sock) : Type 0 where
  pub waits : s.state ≡ syn_recv
  pub unbound : s.bind_link ≡ never

abort-none : (a : ℕ) (t : Tcp) → (t.socks a).bind_link ≡ never → abort a t ≡ none
unfolding abort tcp_bind_unhash tcp_set_state
abort-none a t e = rw (==_refl a, e) refl

reset-none :
    (iss a : ℕ) (cb : Cb) (t : Tcp)
    → IsChild (t.socks a)
    → has_flag tcp_rst cb.flags ≡ true
    → tcp_process iss a cb t ≡ none
unfolding tcp_process process_at process_answered
reset-none iss a cb t child rst = rw (child.waits, rst) (abort-none a t child.unbound)

control-IsChild :
    (a flags : ℕ) (t : Tcp)
    → IsChild (t.socks a)
    → IsChild ((tcp_send_control_packet a flags t).socks a)
unfolding tcp_send_control_packet insert_send init_timer
control-IsChild a flags t child = record {
  waits = ground (arith, child.waits);
  unbound = ground (arith, child.unbound);
}

add_hash-IsChild : (a : ℕ) (t : Tcp) → IsChild (t.socks a) → IsChild ((add_hash a t).socks a)
unfolding add_hash
add_hash-IsChild a t child =
    rw (add_to-socks (t.socks a).state a (t.socks a) t, ==_refl a)
      (record { waits = child.waits; unbound = child.unbound })

hash-IsChild :
    (a : ℕ) (t : Tcp) → IsChild (t.socks a) → Any (λ p. IsChild (p.1.socks a)) (tcp_hash a t)
unfolding tcp_hash hash_at
hash-IsChild a t child = rw child.waits (elim (Bool-cases (is_known a t)) [
  | inl known ↦ rw known child
  | inr new ↦ rw new (
      if_unlinked-Any (λ p. IsChild (p.1.socks a)) (t.socks a).hash_link (true, add_hash a t)
        (add_hash-IsChild a t child))
])

requested-IsChild :
    (iss a : ℕ) (cb : Cb) (t : Tcp)
    → a ≢ t.next_sock
    → IsChild ((requested iss a cb t).socks t.next_sock)
unfolding requested alloc_tcp_sock tcp_set_state child_sock fresh_sock
requested-IsChild iss a cb t old = record {
  waits = rw (==_refl t.next_sock) refl;
  unbound = ground arith;
}

-- Where a listening socket got a SYN, a RST for the child that it made is a fault, whatever the numbers
-- in both.
pub listen-reset :
    (iss iss' a : ℕ) (request cb : Cb) (t t' : Tcp)
    → a ≢ t.next_sock
    → (t.socks a).state ≡ listen
    → has_flag tcp_syn request.flags ≡ true
    → has_flag tcp_rst cb.flags ≡ true
    → tcp_process iss a request t ≡ some t'
    → tcp_process iss' t.next_sock cb t' ≡ none
unfolding tcp_process process_at tcp_state_listen
listen-reset iss iss' a request cb t t' old is syn rst e =
    let answered : tcp_state_listen iss a request t ≡ some t' = rw is at e in
    let child : Any (λ t''. IsChild (t''.socks t.next_sock)) (tcp_state_listen iss a request t) =
      rw syn (
        Any-and_then (λ p. IsChild (p.1.socks t.next_sock)) (λ t''. IsChild (t''.socks t.next_sock))
          (tcp_send_control_packet t.next_sock (tcp_syn + tcp_ack))
          (tcp_hash t.next_sock (requested iss a request t))
          (hash-IsChild t.next_sock (requested iss a request t)
            (requested-IsChild iss a request t old))
          (λ p c. control-IsChild t.next_sock (tcp_syn + tcp_ack) p.1 c)) in
    reset-none iss' t.next_sock cb t'
      (Any-some (λ t''. IsChild (t''.socks t.next_sock)) (tcp_state_listen iss a request t) t' child
        answered)
      rst
