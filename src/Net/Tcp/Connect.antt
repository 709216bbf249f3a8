-- ===== src/Net/Tcp/Connect.antt =====
-- The whole handshake of two stacks of Computer Networks/pr11-网络传输机制实验三.
use ucas_coursework.Prelude.{ℕ, ◌+◌, ◌≡◌, ◌≢◌, refl, ◌∙◌, sym, true, some, [], ◌∷◌, ◌++◌}
use ucas_coursework.Net.Tcp.{listen, established, Segment, Tcp, never, tcp_ack, tcp_syn, u32}
use ucas_coursework.Net.Tcp.Table.{unlink, tcp_sock_lookup_listen, tcp_sock_lookup_established}
use ucas_coursework.Net.Tcp.Process.{handle_tcp_cb}
use ucas_coursework.Net.Tcp.Api.{start_connect}
use ucas_coursework.Net.Tcp.Handshake.{cb_of, control, Unknown, Unknown-lookup}
use ucas_coursework.Net.Tcp.Lookup.{handle-established, handle-listen}
use ucas_coursework.Net.Tcp.Handshake.Client.{syn_sent-Answered, start_connect-Connecting}
use ucas_coursework.Net.Tcp.Handshake.Server.{syn_recv-Accepted, listen-Requested}

-- The client `a` of the stack `c` and the listening socket `p` of the stack `s` run through the
-- handshake: every packet is the one that the step before has sent.
pub record Handshaken (iss iss' sip sport a ip port p : ℕ) (c s : Tcp) : Type 0 where
  pub c₁ : Tcp
  pub c₂ : Tcp
  pub s₁ : Tcp
  pub s₂ : Tcp
  pub syn : Segment
  pub answer : Segment
  pub last : Segment
  pub connect : start_connect iss sip sport a ip port c ≡ some (true, c₁)
  pub sent_syn : c₁.sent ≡ c.sent ++ (syn ∷ [])
  pub requested : handle_tcp_cb iss' (cb_of syn) s ≡ some s₁
  pub sent_answer : s₁.sent ≡ s.sent ++ (answer ∷ [])
  pub answered : handle_tcp_cb iss (cb_of answer) c₁ ≡ some c₂
  pub sent_last : c₂.sent ≡ c₁.sent ++ (last ∷ [])
  pub finished : handle_tcp_cb iss' (cb_of last) s₁ ≡ some s₂
  pub client_state : (c₂.socks a).state ≡ established
  pub child_state : (s₂.socks s.next_sock).state ≡ established
  pub to_client : (c₂.socks a).rcv_nxt ≡ (s₂.socks s.next_sock).snd_nxt
  pub to_child : (s₂.socks s.next_sock).rcv_nxt ≡ (c₂.socks a).snd_nxt
  pub queue :
      (s₂.socks p).accept_queue ≡ unlink s.next_sock (s₁.socks p).accept_queue ++ (s.next_sock ∷ [])
  pub backlog : (s₂.socks p).accept_backlog ≡ (s₁.socks p).accept_backlog + 1

-- A connect on a socket that is in no table, and a listening socket at the other end, which the lookup of
-- its port finds; no socket of either stack has the four numbers of the connection, and the address of
-- the new socket is not in the table of the other stack yet. With each packet handed to the other stack,
-- which looks the socket for it up, both ends come to
-- the established state, each expects the number that the other sends next, and the new socket is the
-- last of the accept queue.
pub connect-Handshaken :
    (iss iss' sip sport a ip port p : ℕ) (c s : Tcp)
    → (c.socks a).bind_link ≡ never
    → (c.socks a).hash_link ≡ never
    → Unknown a sip ip sport port c
    → (s.socks p).state ≡ listen
    → p ≢ s.next_sock
    → tcp_sock_lookup_listen port s ≡ some p
    → Unknown s.next_sock ip sip port sport s
    → Handshaken iss iss' sip sport a ip port p c s
connect-Handshaken iss iss' sip sport a ip port p c s unbound unhashed new_c is old listens new_s =
    let (c₁, connect, at) =
      start_connect-Connecting iss sip sport a ip port c unbound unhashed new_c in
    let syn = control sip sport ip port iss (c.socks a).rcv_nxt tcp_syn (c.socks a).rcv_wnd in
    let (s₁, request, req) = listen-Requested iss' p (cb_of syn) s old is refl new_s in
    let answer = control ip port sip sport iss' (u32 (iss + 1)) (tcp_syn + tcp_ack) 65535 in
    let (c₂, answered, ans) =
      syn_sent-Answered iss a (cb_of answer) c₁ at.state refl (sym at.snd_nxt) in
    let k = c₁.socks a in
    let last = control k.sip k.sport k.dip k.dport k.snd_nxt (u32 (iss' + 1)) tcp_ack k.rcv_wnd in
    let (s₂, finished, acc) =
      syn_recv-Accepted iss' p s.next_sock (cb_of last) s₁ old req.state req.parent refl refl
        (sym req.snd_nxt) in
    let (sip_is, ip_is, sport_is, port_is) = at.numbers in
    let to_child : tcp_sock_lookup_established k.dip k.sip k.dport k.sport s₁ ≡ some s.next_sock =
      rw (sip_is, ip_is, sport_is, port_is) req.found in
    record {
      c₁ = c₁;
      c₂ = c₂;
      s₁ = s₁;
      s₂ = s₂;
      syn = syn;
      answer = answer;
      last = last;
      connect = connect;
      sent_syn = at.sent;
      requested =
          handle-listen iss' p (cb_of syn) s (Unknown-lookup s.next_sock ip sip port sport s new_s)
            listens
          ∙ request;
      sent_answer = req.sent;
      answered = handle-established iss a (cb_of answer) c₁ at.found ∙ answered;
      sent_last = ans.sent;
      finished = handle-established iss' s.next_sock (cb_of last) s₁ to_child ∙ finished;
      client_state = ans.state;
      child_state = acc.state;
      to_client = ans.rcv_nxt ∙ sym (acc.snd_nxt ∙ req.snd_nxt);
      to_child = acc.rcv_nxt ∙ req.rcv_nxt ∙ sym (ans.snd_nxt ∙ at.snd_nxt);
      queue = acc.queue;
      backlog = acc.backlog;
    }
