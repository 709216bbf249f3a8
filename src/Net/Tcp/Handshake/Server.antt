-- ===== src/Net/Tcp/Handshake/Server.antt =====
-- The end that listens: `tcp_state_listen` and `tcp_state_syn_recv` of
-- Computer Networks/pr11-网络传输机制实验三.
use ucas_coursework.Prelude.{
  ℕ, ◌+◌, ◌≡◌, ◌≢◌, refl, ap, ◌∙◌, true, false, some, [], ◌∷◌, ◌++◌, arith, ◌==◌, ==_refl,
  Bool-cases, inl, inr, ==_iff, ==_ne, All-mono,
}
use ucas_coursework.Net.Tcp.{
  State, tcp_hash_function, listen, syn_recv, established, Sock, Tcp, Cb, has_flag, tcp_syn,
  tcp_ack, tcp_set_state, modify_sock, alloc_tcp_sock, fresh_sock, wake_sleeper, u32, u16,
}
use ucas_coursework.Net.Tcp.Table.{add_hash, unlink, tcp_sock_lookup_established}
use ucas_coursework.Net.Tcp.Output.{
  some_acked, tcp_send_control_packet, remove_from_send_list, reset_timer,
}
use ucas_coursework.Net.Tcp.Input.{
  tcp_state_listen, tcp_state_syn_recv, finish_syn_recv, established_by, tcp_sock_accept_enqueue,
  child_sock, requested, and_then, u32_pred, deliver,
}
use ucas_coursework.Net.Tcp.Process.{process_answered, process_checked, process_at, tcp_process}
use ucas_coursework.Net.Tcp.Handshake.{
  control, Stranger, Unknown, tcp_hash-new, control_of, hashed-Numbered, hashed-found,
}

-- The child of the server on the last ACK.
pub record Accepted (p a : ℕ) (t t' : Tcp) : Type 0 where
  pub state : (t'.socks a).state ≡ established
  pub rcv_nxt : (t'.socks a).rcv_nxt ≡ (t.socks a).rcv_nxt
  pub snd_nxt : (t'.socks a).snd_nxt ≡ (t.socks a).snd_nxt
  pub queue : (t'.socks p).accept_queue ≡ unlink a (t.socks p).accept_queue ++ (a ∷ [])
  pub backlog : (t'.socks p).accept_backlog ≡ (t.socks p).accept_backlog + 1

-- The child is in the queue of its parent.
abbrev queued : ℕ → ℕ → Cb → Tcp → Tcp
queued p a cb t =
    modify_sock a (λ s. record s { snd_una = u32_pred cb.ack; rcv_wnd = u16 cb.rwnd })
      (tcp_set_state a established (tcp_sock_accept_enqueue p a t))

-- The rest of the work on a last ACK without data.
abbrev finished : ℕ → ℕ → Cb → Tcp → Tcp
finished p a cb t =
    modify_sock p (λ s. record s { wait_accept = wake_sleeper s.wait_accept })
      (modify_sock a (remove_from_send_list cb.ack) (modify_sock a (λ s. s) t))

finish-finished :
    (p a : ℕ) (cb : Cb) (t : Tcp)
    → cb.payload ≡ []
    → finish_syn_recv p a cb t ≡ some (finished p a cb t)
unfolding finish_syn_recv deliver
finish-finished p a cb t no_data = rw no_data refl

syn_recv-queued :
    (p a : ℕ) (cb : Cb) (t : Tcp)
    → (t.socks a).parent ≡ some p
    → cb.ack ≡ (t.socks a).snd_nxt
    → tcp_state_syn_recv a cb t ≡ finish_syn_recv p a cb (queued p a cb t)
unfolding tcp_state_syn_recv established_by
syn_recv-queued p a cb t parent ack =
    let same : (cb.ack == (t.socks a).snd_nxt) ≡ true = ground arith in
    rw same (ap (λ o. established_by o a cb t) parent)

answered-checked :
    (state : State) (a : ℕ) (cb : Cb) (t : Tcp)
    → cb.flags ≡ tcp_ack
    → process_answered state a cb t ≡ process_checked state a cb t
unfolding process_answered
answered-checked state a cb t flags = rw flags refl

-- What `remove_from_send_list` leaves alone.
remove-kept :
    (ack : ℕ) (s : Sock)
    → let s' = remove_from_send_list ack s in
      (s'.state ≡ s.state) × (s'.rcv_nxt ≡ s.rcv_nxt) × (s'.snd_nxt ≡ s.snd_nxt)
unfolding remove_from_send_list reset_timer
remove-kept ack s = elim (Bool-cases (some_acked ack s.send_list)) [
  | inl gone ↦ rw gone (refl, refl, refl)
  | inr left ↦ rw left (refl, refl, refl)
]

finished-child :
    (p a : ℕ) (cb : Cb) (t : Tcp)
    → (a == p) ≡ false
    → (finished p a cb t).socks a ≡ remove_from_send_list cb.ack (t.socks a)
finished-child p a cb t apart = rw (apart, ==_refl a) refl

finished-parent :
    (p a : ℕ) (cb : Cb) (t : Tcp)
    → (p == a) ≡ false
    → (finished p a cb t).socks p
      ≡ record (t.socks p) { wait_accept = wake_sleeper (t.socks p).wait_accept }
finished-parent p a cb t apart = rw (==_refl p, apart) refl

queued-child :
    (p a : ℕ) (cb : Cb) (t : Tcp)
    → (a == p) ≡ false
    → (queued p a cb t).socks a
      ≡ record (t.socks a) { snd_una = u32_pred cb.ack; rcv_wnd = u16 cb.rwnd; state = established }
unfolding tcp_sock_accept_enqueue tcp_set_state
queued-child p a cb t apart = rw (apart, ==_refl a) refl

queued-parent :
    (p a : ℕ) (cb : Cb) (t : Tcp)
    → (p == a) ≡ false
    → (queued p a cb t).socks p ≡ record (t.socks p) {
      listen_queue = unlink a (t.socks p).listen_queue;
      accept_queue = unlink a (t.socks p).accept_queue ++ (a ∷ []);
      accept_backlog = (t.socks p).accept_backlog + 1;
    }
unfolding tcp_sock_accept_enqueue tcp_set_state
queued-parent p a cb t apart = rw (==_refl p, apart) refl

finished-Accepted :
    (p a : ℕ) (cb : Cb) (t : Tcp) → p ≢ a → Accepted p a t (finished p a cb (queued p a cb t))
finished-Accepted p a cb t apart =
    let q = queued p a cb t in
    let no : (a == p) ≡ false = ground arith in
    let no' : (p == a) ≡ false = ground arith in
    let child = finished-child p a cb q no in
    let before = queued-child p a cb t no in
    let (state, rcv_nxt, snd_nxt) = remove-kept cb.ack (q.socks a) in
    let parent = finished-parent p a cb q no' in
    let parent_before = queued-parent p a cb t no' in
    record {
      state = ap (λ s. s.state) child ∙ state ∙ ap (λ s. s.state) before;
      rcv_nxt = ap (λ s. s.rcv_nxt) child ∙ rcv_nxt ∙ ap (λ s. s.rcv_nxt) before;
      snd_nxt = ap (λ s. s.snd_nxt) child ∙ snd_nxt ∙ ap (λ s. s.snd_nxt) before;
      queue = ap (λ s. s.accept_queue) parent ∙ ap (λ s. s.accept_queue) parent_before;
      backlog = ap (λ s. s.accept_backlog) parent ∙ ap (λ s. s.accept_backlog) parent_before;
    }

pub syn_recv-Accepted :
    (iss p a : ℕ) (cb : Cb) (t : Tcp)
    → p ≢ a
    → (t.socks a).state ≡ syn_recv
    → (t.socks a).parent ≡ some p
    → cb.flags ≡ tcp_ack
    → cb.payload ≡ []
    → cb.ack ≡ (t.socks a).snd_nxt
    → (t' : Tcp) × (tcp_process iss a cb t ≡ some t') × Accepted p a t t'
unfolding tcp_process process_at process_checked
syn_recv-Accepted iss p a cb t apart is parent flags no_data ack = (
  finished p a cb (queued p a cb t),
  ap (λ state. process_at state iss a cb t) is
      ∙ answered-checked syn_recv a cb t flags
      ∙ syn_recv-queued p a cb t parent ack
      ∙ finish-finished p a cb (queued p a cb t) no_data,
  finished-Accepted p a cb t apart,
)

-- The server on the SYN.
pub record Requested (iss p : ℕ) (cb : Cb) (t t' : Tcp) : Type 0 where
  pub state : (t'.socks t.next_sock).state ≡ syn_recv
  pub parent : (t'.socks t.next_sock).parent ≡ some p
  pub rcv_nxt : (t'.socks t.next_sock).rcv_nxt ≡ u32 (cb.seq + 1)
  pub snd_nxt : (t'.socks t.next_sock).snd_nxt ≡ u32 (iss + 1)
  pub found : tcp_sock_lookup_established cb.daddr cb.saddr cb.dport cb.sport t' ≡ some t.next_sock
  pub sent :
      t'.sent
      ≡ t.sent
        ++ (control cb.daddr cb.dport cb.saddr cb.sport iss
              (u32 (cb.seq + 1))
              (tcp_syn + tcp_ack)
              65535
            ∷ [])

abbrev child_of : ℕ → ℕ → Cb → Tcp → Sock
child_of iss p cb t = record (child_sock iss p (t.socks p).backlog cb fresh_sock) {
  state = syn_recv;
}

child-requested :
    (iss p : ℕ) (cb : Cb) (t : Tcp)
    → p ≢ t.next_sock
    → (requested iss p cb t).socks t.next_sock ≡ child_of iss p cb t
unfolding requested alloc_tcp_sock tcp_set_state
child-requested iss p cb t old =
    let other : (t.next_sock == p) ≡ false = ground arith in rw (==_refl t.next_sock, other) refl

requested-Unknown :
    (iss p : ℕ) (cb : Cb) (t : Tcp)
    → Unknown t.next_sock cb.daddr cb.saddr cb.dport cb.sport t
    → Unknown t.next_sock cb.daddr cb.saddr cb.dport cb.sport (requested iss p cb t)
unfolding requested alloc_tcp_sock tcp_set_state
requested-Unknown iss p cb t unknown =
    All-mono (Stranger t.next_sock cb.daddr cb.saddr cb.dport cb.sport t)
      (Stranger t.next_sock cb.daddr cb.saddr cb.dport cb.sport (requested iss p cb t))
      (t.established_table (tcp_hash_function cb.daddr cb.saddr cb.dport cb.sport))
      (λ b h. (
        h.0,
        elim (Bool-cases (b == p)) [
          | inl here ↦
              let e : b ≡ p = (==_iff b p).0 here in
              rw (e, ==_ne p t.next_sock (λ q. h.0 (e ∙ q)), ==_refl p) (rw e at h.1)
          | inr apart ↦ rw (==_ne b t.next_sock h.0, apart) h.1
        ],
      ))
      unknown

child-control :
    (iss p : ℕ) (cb : Cb) (t : Tcp)
    → control_of (child_of iss p cb t) (tcp_syn + tcp_ack)
      ≡ control cb.daddr cb.dport cb.saddr cb.sport iss (u32 (cb.seq + 1)) (tcp_syn + tcp_ack) 65535
unfolding child_sock fresh_sock
child-control iss p cb t = refl

pub listen-Requested :
    (iss p : ℕ) (cb : Cb) (t : Tcp)
    → p ≢ t.next_sock
    → (t.socks p).state ≡ listen
    → has_flag tcp_syn cb.flags ≡ true
    → Unknown t.next_sock cb.daddr cb.saddr cb.dport cb.sport t
    → (t' : Tcp) × (tcp_process iss p cb t ≡ some t') × Requested iss p cb t t'
unfolding tcp_process process_at tcp_state_listen
listen-Requested iss p cb t old is syn unknown =
    let here = child-requested iss p cb t old in
    let hashed =
      tcp_hash-new t.next_sock (requested iss p cb t) (child_of iss p cb t) here tt refl
        (requested-Unknown iss p cb t unknown) in
    let n =
      hashed-Numbered t.next_sock (tcp_syn + tcp_ack) (requested iss p cb t) (child_of iss p cb t)
        here refl in
    (
      tcp_send_control_packet t.next_sock (tcp_syn + tcp_ack)
          (add_hash t.next_sock (requested iss p cb t)),
      ap (λ state. process_at state iss p cb t) is
          ∙ rw syn (ap (and_then (tcp_send_control_packet t.next_sock (tcp_syn + tcp_ack))) hashed),
      record {
        state = n.state;
        parent = n.parent;
        rcv_nxt = n.rcv_nxt;
        snd_nxt = n.snd_nxt;
        found =
            hashed-found t.next_sock (tcp_syn + tcp_ack) (requested iss p cb t)
              (child_of iss p cb t) here (λ e. absurd (cc e)) refl;
        sent = n.sent ∙ ap (λ c. t.sent ++ (c ∷ [])) (child-control iss p cb t);
      },
    )
