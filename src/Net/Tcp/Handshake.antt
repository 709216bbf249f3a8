-- ===== src/Net/Tcp/Handshake.antt =====
-- The three packets that connect two TCP stacks of Computer Networks/pr11-网络传输机制实验三: what the two ends
-- share, a socket that is hashed and sends a packet with SYN.
pub mod Client
pub mod Server
use mathlib.Core.Path.{subst}
use ucas_coursework.Prelude.{
  ℕ, ◌+◌, ◌%◌, ◌^◌, ◌<◌, ◌≡◌, ◌≢◌, refl, ap, ap₂, ◌∙◌, sym, Bool, true, false, Option, none, some,
  List, [], ◌∷◌, ◌++◌, arith, ◌==◌, ==_refl, ==_ne, Bool-cases, inl, inr, on_some, length, All,
  if◌then◌else◌, ◌||◌,
}
use ucas_coursework.Net.Tcp.{
  State, closed, listen, syn_recv, syn_sent, established, Segment, Sock, Tcp, Cb, Link, never,
  linked, has_flag, tcp_syn, tcp_fin, tcp_rst, tcp_ack, tcp_set_state, modify_sock, alloc_tcp_sock,
  fresh_sock, wake_sleeper, u32, u16, tcp_hash_function, emit,
}
use ucas_coursework.Net.Tcp.Table.{
  tcp_bind_hash, add_bind, tcp_hash, hash_at, add_hash, add_to, is_known, found, find_sock,
  same_four, if_unlinked, unlink, tcp_sock_lookup_established,
}
use ucas_coursework.Net.Tcp.Output.{
  tcp_send_control_packet, insert_send, init_timer, segment_of, remove_from_send_list, reset_timer,
  some_acked,
}
use ucas_coursework.Net.Tcp.Input.{
  tcp_state_listen, tcp_state_syn_sent, tcp_state_syn_recv, finish_syn_recv, established_by,
  tcp_sock_accept_enqueue, child_sock, requested, and_then, u32_pred, deliver,
}
use ucas_coursework.Net.Tcp.Process.{process_answered, process_checked, process_at, tcp_process}
use ucas_coursework.Net.Tcp.States.{add_to-socks}
use ucas_coursework.Net.Tcp.Lookup.{lookup-front, same_four_self}
use ucas_coursework.Net.Tcp.Api.{start_connect, send_syn, await_answer, begin_sleep}

-- The control block of a segment that arrives.
abbrev pub cb_of : Segment → Cb
cb_of s = record {
  saddr = s.saddr;
  daddr = s.daddr;
  sport = s.sport;
  dport = s.dport;
  seq = s.seq;
  seq_end = u32 (
      s.seq
      + length s.payload
      + (if has_flag tcp_syn s.flags || has_flag tcp_fin s.flags then 1 else 0));
  ack = s.ack;
  payload = s.payload;
  rwnd = s.rwnd;
  flags = s.flags;
}

-- A packet without data.
abbrev pub control : ℕ → ℕ → ℕ → ℕ → ℕ → ℕ → ℕ → ℕ → Segment
control saddr sport daddr dport seq ack flags rwnd = record {
  saddr = saddr;
  daddr = daddr;
  sport = sport;
  dport = dport;
  seq = seq;
  ack = ack;
  flags = flags;
  rwnd = rwnd;
  payload = [];
}

-- The socket `b` is another than `a` and has not the four numbers.
abbrev pub Stranger : ℕ → ℕ → ℕ → ℕ → ℕ → Tcp → ℕ → Type 0
Stranger a saddr daddr sport dport t b =
    (b ≢ a) × (same_four saddr daddr sport dport (t.socks b) ≡ false)

-- No socket in the table of connections has the four numbers, and `a` is not in their bucket.
abbrev pub Unknown : ℕ → ℕ → ℕ → ℕ → ℕ → Tcp → Type 0
Unknown a saddr daddr sport dport t =
    All (Stranger a saddr daddr sport dport t)
      (t.established_table (tcp_hash_function saddr daddr sport dport))

find-unknown :
    (a saddr daddr sport dport : ℕ) (t : Tcp) (l : List ℕ)
    → All (Stranger a saddr daddr sport dport t) l
    → find_sock (same_four saddr daddr sport dport) t.socks l ≡ none
find-unknown a saddr daddr sport dport t [] h = refl
find-unknown a saddr daddr sport dport t (b ∷ l) h =
    rw (h.0.1, find-unknown a saddr daddr sport dport t l h.1) refl

pub Unknown-lookup :
    (a saddr daddr sport dport : ℕ) (t : Tcp)
    → Unknown a saddr daddr sport dport t
    → tcp_sock_lookup_established saddr daddr sport dport t ≡ none
unfolding tcp_sock_lookup_established
Unknown-lookup a saddr daddr sport dport t unknown =
    find-unknown a saddr daddr sport dport t
      (t.established_table (tcp_hash_function saddr daddr sport dport)) unknown

pub new-is_known :
    (a : ℕ) (t : Tcp) (s : Sock)
    → t.socks a ≡ s
    → Unknown a s.sip s.dip s.sport s.dport t
    → is_known a t ≡ false
unfolding is_known found
new-is_known a t s here unknown =
    rw here (ap found (Unknown-lookup a s.sip s.dip s.sport s.dport t unknown))

-- The two states in which a socket is hashed for a handshake.
abbrev pub IsNew : State → Type 0
IsNew syn_recv = Unit
IsNew syn_sent = Unit
IsNew state = ⊥

pub hash_at-new :
    (state : State) (a : ℕ) (t : Tcp)
    → IsNew state
    → is_known a t ≡ false
    → (t.socks a).hash_link ≡ never
    → hash_at state a t ≡ some (true, add_hash a t)
unfolding hash_at
hash_at-new syn_recv a t h unknown unhashed =
    rw unknown (ap (λ l. if_unlinked l (true, add_hash a t)) unhashed)
hash_at-new syn_sent a t h unknown unhashed =
    rw unknown (ap (λ l. if_unlinked l (true, add_hash a t)) unhashed)
hash_at-new closed a t h unknown unhashed = absurd h
hash_at-new state a t h unknown unhashed = absurd h

pub tcp_hash-new :
    (a : ℕ) (t : Tcp) (s : Sock)
    → t.socks a ≡ s
    → IsNew s.state
    → s.hash_link ≡ never
    → Unknown a s.sip s.dip s.sport s.dport t
    → tcp_hash a t ≡ some (true, add_hash a t)
unfolding tcp_hash
tcp_hash-new a t s here is unhashed unknown =
    ap (λ s'. hash_at s'.state a t) here
    ∙ hash_at-new s.state a t is (new-is_known a t s here unknown)
        (ap (λ s'. s'.hash_link) here ∙ unhashed)

abbrev pub control_of : Sock → ℕ → Segment
control_of s flags = control s.sip s.sport s.dip s.dport s.snd_nxt s.rcv_nxt flags s.rcv_wnd

-- What a packet with SYN leaves of a socket.
pub record Numbered (a flags : ℕ) (s : Sock) (t t' : Tcp) : Type 0 where
  pub state : (t'.socks a).state ≡ s.state
  pub parent : (t'.socks a).parent ≡ s.parent
  pub sip : (t'.socks a).sip ≡ s.sip
  pub dip : (t'.socks a).dip ≡ s.dip
  pub sport : (t'.socks a).sport ≡ s.sport
  pub dport : (t'.socks a).dport ≡ s.dport
  pub rcv_nxt : (t'.socks a).rcv_nxt ≡ s.rcv_nxt
  pub snd_nxt : (t'.socks a).snd_nxt ≡ u32 (s.snd_nxt + 1)
  pub sent : t'.sent ≡ t.sent ++ (control_of s flags ∷ [])

pub syn-Numbered :
    (a flags : ℕ) (t : Tcp)
    → has_flag tcp_syn flags ≡ true
    → Numbered a flags (t.socks a) t (tcp_send_control_packet a flags t)
unfolding tcp_send_control_packet insert_send init_timer
syn-Numbered a flags t syn = elim (Bool-cases ((t.socks a).timer_send.type == 0)) [
  | inl first ↦
      rw (syn, first)
        (record {
          state = rw (==_refl a) refl;
          parent = rw (==_refl a) refl;
          sip = rw (==_refl a) refl;
          dip = rw (==_refl a) refl;
          sport = rw (==_refl a) refl;
          dport = rw (==_refl a) refl;
          rcv_nxt = rw (==_refl a) refl;
          snd_nxt = rw (==_refl a) refl;
          sent = refl;
        })
  | inr more ↦
      rw (syn, more)
        (record {
          state = rw (==_refl a) refl;
          parent = rw (==_refl a) refl;
          sip = rw (==_refl a) refl;
          dip = rw (==_refl a) refl;
          sport = rw (==_refl a) refl;
          dport = rw (==_refl a) refl;
          rcv_nxt = rw (==_refl a) refl;
          snd_nxt = rw (==_refl a) refl;
          sent = refl;
        })
]

-- A packet with SYN leaves the table and the four numbers of its socket alone.
syn-kept :
    (a flags x y z w : ℕ) (t : Tcp)
    → has_flag tcp_syn flags ≡ true
    → let t' = tcp_send_control_packet a flags t in
      (t'.established_table ≡ t.established_table)
      × (same_four x y z w (t'.socks a) ≡ same_four x y z w (t.socks a))
unfolding tcp_send_control_packet insert_send init_timer
syn-kept a flags x y z w t syn = elim (Bool-cases ((t.socks a).timer_send.type == 0)) [
  | inl first ↦ rw (syn, first) (refl, rw (==_refl a) refl)
  | inr more ↦ rw (syn, more) (refl, rw (==_refl a) refl)
]

pub add_to-sent : (state : State) (a : ℕ) (s : Sock) (t : Tcp) → (add_to state a s t).sent ≡ t.sent
add_to-sent listen a s t = refl
add_to-sent closed a s t = refl
add_to-sent state a s t = refl

pub add_hash-at :
    (a : ℕ) (t : Tcp)
    → ((add_hash a t).socks a
        ≡ record (t.socks a) { hash_link = linked; ref_cnt = (t.socks a).ref_cnt + 1 })
      × ((add_hash a t).sent ≡ t.sent)
unfolding add_hash
add_hash-at a t = (
  rw (add_to-socks (t.socks a).state a (t.socks a) t, ==_refl a) refl,
  add_to-sent (t.socks a).state a (t.socks a) t,
)

pub hashed-Numbered :
    (a flags : ℕ) (t : Tcp) (s : Sock)
    → t.socks a ≡ s
    → has_flag tcp_syn flags ≡ true
    → Numbered a flags s t (tcp_send_control_packet a flags (add_hash a t))
hashed-Numbered a flags t s here syn =
    let n = syn-Numbered a flags (add_hash a t) syn in
    let (sock, sent) = add_hash-at a t in
    record {
      state = n.state ∙ ap (λ r. r.state) sock ∙ ap (λ r. r.state) here;
      parent = n.parent ∙ ap (λ r. r.parent) sock ∙ ap (λ r. r.parent) here;
      sip = n.sip ∙ ap (λ r. r.sip) sock ∙ ap (λ r. r.sip) here;
      dip = n.dip ∙ ap (λ r. r.dip) sock ∙ ap (λ r. r.dip) here;
      sport = n.sport ∙ ap (λ r. r.sport) sock ∙ ap (λ r. r.sport) here;
      dport = n.dport ∙ ap (λ r. r.dport) sock ∙ ap (λ r. r.dport) here;
      rcv_nxt = n.rcv_nxt ∙ ap (λ r. r.rcv_nxt) sock ∙ ap (λ r. r.rcv_nxt) here;
      snd_nxt = n.snd_nxt ∙ ap (λ r. u32 (r.snd_nxt + 1)) sock ∙ ap (λ r. u32 (r.snd_nxt + 1)) here;
      sent =
          n.sent
          ∙ ap₂ (λ l r. l ++ (control_of r flags ∷ [])) sent sock
          ∙ ap (λ r. t.sent ++ (control_of r flags ∷ [])) here;
    }

-- The lookup finds the socket that was hashed and has sent its packet.
pub hashed-found :
    (a flags : ℕ) (t : Tcp) (s : Sock)
    → t.socks a ≡ s
    → s.state ≢ listen
    → has_flag tcp_syn flags ≡ true
    → tcp_sock_lookup_established s.sip s.dip s.sport s.dport
        (tcp_send_control_packet a flags (add_hash a t))
      ≡ some a
hashed-found a flags t s here ne syn =
    let r = t.socks a in
    let (tables, same) = syn-kept a flags r.sip r.dip r.sport r.dport (add_hash a t) syn in
    let hit : same_four r.sip r.dip r.sport r.dport ((add_hash a t).socks a) ≡ true =
      ap (same_four r.sip r.dip r.sport r.dport) (add_hash-at a t).0 ∙ same_four_self r in
    subst
      (λ (x : Sock).
        tcp_sock_lookup_established x.sip x.dip x.sport x.dport
          (tcp_send_control_packet a flags (add_hash a t))
        ≡ some a)
      here
      (lookup-front a t (tcp_send_control_packet a flags (add_hash a t))
        (λ e. ne (sym (ap (λ (x : Sock). x.state) here) ∙ e)) tables (same ∙ hit))
