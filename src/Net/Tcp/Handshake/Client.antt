-- ===== src/Net/Tcp/Handshake/Client.antt =====
-- The end that connects: `tcp_sock_connect` and `tcp_state_syn_sent` of
-- Computer Networks/pr11-网络传输机制实验三.
use ucas_coursework.Prelude.{
  ℕ, ◌+◌, ◌≡◌, refl, ap, ◌∙◌, true, some, [], ◌∷◌, ◌++◌, ==_refl, on_some, ==_ne, All-mono, ◌==◌,
  ==_iff, Bool-cases, inl, inr, List,
}
use ucas_coursework.Net.Tcp.{
  tcp_hash_function, syn_sent, established, Sock, Tcp, Cb, never, linked, tcp_syn, tcp_ack,
  tcp_set_state, modify_sock, u32,
}
use ucas_coursework.Net.Tcp.Table.{
  tcp_bind_hash, add_bind, add_hash, find_sock, same_four, tcp_sock_lookup_established,
}
use ucas_coursework.Net.Tcp.Output.{tcp_send_control_packet}
use ucas_coursework.Net.Tcp.Input.{tcp_state_syn_sent, u32_pred}
use ucas_coursework.Net.Tcp.Process.{process_at, tcp_process}
use ucas_coursework.Net.Tcp.Api.{start_connect, send_syn, await_answer, begin_sleep}
use ucas_coursework.Net.Tcp.Handshake.{
  control, Stranger, Unknown, hashed-found, tcp_hash-new, Numbered, hashed-Numbered,
}

-- The client on the SYN and ACK.
pub record Answered (a : ℕ) (cb : Cb) (t t' : Tcp) : Type 0 where
  pub state : (t'.socks a).state ≡ established
  pub rcv_nxt : (t'.socks a).rcv_nxt ≡ u32 (cb.seq + 1)
  pub snd_nxt : (t'.socks a).snd_nxt ≡ (t.socks a).snd_nxt
  pub sent :
      let s = t.socks a in
      t'.sent
      ≡ t.sent
        ++ (control s.sip s.sport s.dip s.dport s.snd_nxt (u32 (cb.seq + 1)) tcp_ack s.rcv_wnd ∷ [])

pub syn_sent-Answered :
    (iss a : ℕ) (cb : Cb) (t : Tcp)
    → (t.socks a).state ≡ syn_sent
    → cb.flags ≡ tcp_syn + tcp_ack
    → cb.ack ≡ (t.socks a).snd_nxt
    → (t' : Tcp) × (tcp_process iss a cb t ≡ some t') × Answered a cb t t'
unfolding tcp_process process_at tcp_state_syn_sent tcp_set_state tcp_send_control_packet
syn_sent-Answered iss a cb t is flags ack = (
  tcp_state_syn_sent a cb t,
  ap (λ state. process_at state iss a cb t) is,
  rw (flags, ack, ==_refl (t.socks a).snd_nxt)
      (record {
        state = rw (==_refl a) refl;
        rcv_nxt = rw (==_refl a) refl;
        snd_nxt = rw (==_refl a) refl;
        sent = rw (==_refl a) refl;
      }),
)

-- The socket of the client before it is hashed.
abbrev connecting : ℕ → ℕ → ℕ → ℕ → ℕ → ℕ → Tcp → Tcp
connecting iss sip sport a ip port t = tcp_set_state a syn_sent (
    modify_sock a (λ s. record s { iss = iss; snd_una = u32_pred iss; snd_nxt = iss })
      (add_bind a
        (modify_sock a (λ s. record s { sip = sip; sport = sport; dip = ip; dport = port }) t)))

abbrev client_sock : ℕ → ℕ → ℕ → ℕ → ℕ → Sock → Sock
client_sock iss sip sport ip port s = record s {
  sip = sip;
  sport = sport;
  dip = ip;
  dport = port;
  bind_link = linked;
  ref_cnt = s.ref_cnt + 1;
  iss = iss;
  snd_una = u32_pred iss;
  snd_nxt = iss;
  state = syn_sent;
}

connecting-at :
    (iss sip sport a ip port : ℕ) (t : Tcp)
    → ((connecting iss sip sport a ip port t).socks a
        ≡ client_sock iss sip sport ip port (t.socks a))
      × ((connecting iss sip sport a ip port t).sent ≡ t.sent)
unfolding tcp_set_state add_bind
connecting-at iss sip sport a ip port t = (rw (==_refl a) refl, refl)

connecting-Unknown :
    (iss sip sport a ip port : ℕ) (t : Tcp)
    → Unknown a sip ip sport port t
    → Unknown a sip ip sport port (connecting iss sip sport a ip port t)
unfolding tcp_set_state add_bind
connecting-Unknown iss sip sport a ip port t unknown =
    All-mono (Stranger a sip ip sport port t)
      (Stranger a sip ip sport port (connecting iss sip sport a ip port t))
      (t.established_table (tcp_hash_function sip ip sport port))
      (λ b h. (h.0, rw (==_ne b a h.0) h.1)) unknown

-- The client that waits for the answer to its SYN.
pub record Connecting (iss sip sport a ip port : ℕ) (t t' : Tcp) : Type 0 where
  pub state : (t'.socks a).state ≡ syn_sent
  pub snd_nxt : (t'.socks a).snd_nxt ≡ u32 (iss + 1)
  pub found : tcp_sock_lookup_established sip ip sport port t' ≡ some a
  pub numbers :
      ((t'.socks a).sip ≡ sip)
      × ((t'.socks a).dip ≡ ip)
      × ((t'.socks a).sport ≡ sport)
      × ((t'.socks a).dport ≡ port)
  pub sent :
      let s = t.socks a in
      t'.sent ≡ t.sent ++ (control sip sport ip port iss s.rcv_nxt tcp_syn s.rcv_wnd ∷ [])

-- A socket that sleeps is found as before.
find-sleeping :
    (a saddr daddr sport dport : ℕ) (t : Tcp) (l : List ℕ)
    → let t' = modify_sock a (λ s. record s { wait_connect = begin_sleep s.wait_connect }) t in
      find_sock (same_four saddr daddr sport dport) t'.socks l
      ≡ find_sock (same_four saddr daddr sport dport) t.socks l
find-sleeping a saddr daddr sport dport t [] = refl
find-sleeping a saddr daddr sport dport t (b ∷ l) =
    let rest = find-sleeping a saddr daddr sport dport t l in
    elim (Bool-cases (b == a)) [
      | inl here ↦ let e : b ≡ a = (==_iff b a).0 here in rw (e, ==_refl a, rest) refl
      | inr apart ↦ rw (apart, rest) refl
    ]

lookup-sleeping :
    (a saddr daddr sport dport : ℕ) (t : Tcp)
    → tcp_sock_lookup_established saddr daddr sport dport
        (modify_sock a (λ s. record s { wait_connect = begin_sleep s.wait_connect }) t)
      ≡ tcp_sock_lookup_established saddr daddr sport dport t
unfolding tcp_sock_lookup_established
lookup-sleeping a saddr daddr sport dport t =
    find-sleeping a saddr daddr sport dport t
      (t.established_table (tcp_hash_function saddr daddr sport dport))

Numbered-Connecting :
    (iss sip sport a ip port : ℕ) (t t₁ t' : Tcp)
    → t₁.sent ≡ t.sent
    → tcp_sock_lookup_established sip ip sport port t' ≡ some a
    → Numbered a tcp_syn (client_sock iss sip sport ip port (t.socks a)) t₁ t'
    → Connecting iss sip sport a ip port t
        (modify_sock a (λ s. record s { wait_connect = begin_sleep s.wait_connect }) t')
unfolding begin_sleep
Numbered-Connecting iss sip sport a ip port t t₁ t' same found n = record {
  state = rw (==_refl a) n.state;
  snd_nxt = rw (==_refl a) n.snd_nxt;
  found = lookup-sleeping a sip ip sport port t' ∙ found;
  numbers =
      (rw (==_refl a) n.sip, rw (==_refl a) n.dip, rw (==_refl a) n.sport, rw (==_refl a) n.dport);
  sent = rw same at n.sent;
}

bound-port :
    (sip sport a ip port : ℕ) (t : Tcp)
    → (t.socks a).bind_link ≡ never
    → let t₁ =
        modify_sock a (λ s. record s { sip = sip; sport = sport; dip = ip; dport = port }) t in
      tcp_bind_hash a t₁ ≡ some (add_bind a t₁)
unfolding tcp_bind_hash
bound-port sip sport a ip port t unbound = rw (==_refl a, unbound) refl

pub start_connect-Connecting :
    (iss sip sport a ip port : ℕ) (t : Tcp)
    → (t.socks a).bind_link ≡ never
    → (t.socks a).hash_link ≡ never
    → Unknown a sip ip sport port t
    → (t' : Tcp) × (start_connect iss sip sport a ip port t ≡ some (true, t'))
      × Connecting iss sip sport a ip port t t'
unfolding start_connect send_syn await_answer
start_connect-Connecting iss sip sport a ip port t unbound unhashed unknown =
    let x = connecting iss sip sport a ip port t in
    let at = connecting-at iss sip sport a ip port t in
    let s = client_sock iss sip sport ip port (t.socks a) in
    let hashed =
      tcp_hash-new a x s at.0 tt unhashed (connecting-Unknown iss sip sport a ip port t unknown) in
    (
      modify_sock a (λ s'. record s' { wait_connect = begin_sleep s'.wait_connect })
          (tcp_send_control_packet a tcp_syn (add_hash a x)),
      ap (on_some (send_syn iss a)) (bound-port sip sport a ip port t unbound)
          ∙ ap (on_some (await_answer a)) hashed,
      Numbered-Connecting iss sip sport a ip port t x _ at.1
          (hashed-found a tcp_syn x s at.0 (λ e. absurd (cc e)) refl)
          (hashed-Numbered a tcp_syn x s at.0 refl),
    )
