-- ===== src/Net/Tcp/Window.antt =====
-- The sending window of tcp_out.c, tcp_in.c and tcp_timer.c of Computer Networks/pr11-网络传输机制实验三: what
-- is free and what is under way. And the retries of the send timer.
use ucas_coursework.Prelude.{
  ℕ, ◌+◌, ◌*◌, ◌^◌, ◌<◌, ◌≤◌, ◌≡◌, refl, ap, ◌∙◌, none, some, List, [], ◌∷◌, ◌++◌, arith, ◌==◌, leb,
  length, All, Bool-cases, inl, inr, ==_refl, ◌||◌, some_inj,
}
use native.Mathlib.Nat.{pow-le-pow_right}
use ucas_coursework.Net.Tcp.{SendBuffer, Sock, Tcp, u16, has_flag, tcp_syn, tcp_fin}
use ucas_coursework.Net.Tcp.Output.{
  tcp_send_packet, tcp_send_control_packet, insert_send, init_timer, remove_from_send_list, unacked,
  acked_size, is_acked, reset_timer, segment_of, headers_size, tcp_timer_send, resend, resend_first,
}
use ucas_coursework.Net.Tcp.Write.{tcp_send_packet-at, after_packet}

-- The bytes under way.
unfoldable pub flight : List SendBuffer → ℕ
flight [] = 0
flight (b ∷ bs) = b.data_size + flight bs

-- The window and the bytes under way, together.
unfoldable pub window_total : Sock → ℕ
unfolding flight
window_total s = u16 (s.snd_wnd + flight s.send_list)

flight-append : (bs cs : List SendBuffer) → flight (bs ++ cs) ≡ flight bs + flight cs
unfolding flight
flight-append [] cs = omega arith
flight-append (b ∷ bs) cs = omega (arith, flight-append bs cs)

flight-unacked :
    (ack : ℕ) (bs : List SendBuffer) → flight (unacked ack bs) + acked_size ack bs ≡ flight bs
unfolding flight unacked acked_size
flight-unacked ack [] = refl
flight-unacked ack (b ∷ bs) = elim (Bool-cases (is_acked ack b)) [
  | inl gone ↦ rw gone (omega (arith, flight-unacked ack bs))
  | inr left ↦ rw left (omega (arith, flight-unacked ack bs))
]

-- What is acknowledged goes back to the window.
pub remove_from_send_list-window_total :
    (ack : ℕ) (s : Sock) → window_total (remove_from_send_list ack s) ≡ window_total s
unfolding window_total remove_from_send_list reset_timer
remove_from_send_list-window_total ack s = omega (arith, flight-unacked ack s.send_list)

packet-window_total :
    (a : ℕ) (payload : List ℕ) (t : Tcp)
    → window_total (after_packet a payload t) ≡ window_total (t.socks a)
unfolding window_total flight
packet-window_total a payload t = omega (
  arith,
  flight-append (t.socks a).send_list (
      record {
        pkt = segment_of (t.socks a) 24 payload;
        seq = (t.socks a).snd_nxt;
        num = 0;
        data_size = length payload;
        tot_size = headers_size + length payload;
      }
      ∷ []),
)

control-window_total :
    (a flags : ℕ) (t : Tcp)
    → window_total ((tcp_send_control_packet a flags t).socks a) ≡ window_total (t.socks a)
unfolding window_total flight tcp_send_control_packet insert_send init_timer
control-window_total a flags t =
    let more = flight-append (t.socks a).send_list (
      record {
        pkt = segment_of (t.socks a) flags [];
        seq = (t.socks a).snd_nxt;
        num = 0;
        data_size = 0;
        tot_size = headers_size;
      }
      ∷ []) in
    elim (Bool-cases (has_flag tcp_syn flags || has_flag tcp_fin flags)) [
      | inr plain ↦ rw plain refl
      | inl numbered ↦ elim (Bool-cases ((t.socks a).timer_send.type == 0)) [
        | inl first ↦ rw (numbered, first, ==_refl a) (omega (arith, more))
        | inr timed ↦ rw (numbered, timed, ==_refl a) (omega (arith, more))
      ]
    ]

-- No segment was sent again more than ten times, and the send timer fits an `int`.
pub record IsRetrying (s : Sock) : Type 0 where
  pub retries : All (λ b. b.num ≤ 10) s.send_list
  pub timer : s.timer_send.timeout < 2 ^ 31

-- What one turn of the send timer leaves.
pub record Resent (a : ℕ) (t t' : Tcp) : Type 0 where
  pub total : window_total (t'.socks a) ≡ window_total (t.socks a)
  pub retrying : IsRetrying (t'.socks a)

timeout_bound : (n : ℕ) → n < 10 → tcp_timer_send * 2 ^ (n + 1) < 2 ^ 31
timeout_bound n h =
    let power : 2 ^ (n + 1) ≤ 2 ^ 10 =
      pow-le-pow_right {n = 2} (omega arith) {i = n + 1} {j = 10} (omega arith) in
    omega (arith, power)

resend_first-Resent :
    (bs : List SendBuffer) (a : ℕ) (t t' : Tcp)
    → (t.socks a).send_list ≡ bs
    → IsRetrying (t.socks a)
    → resend_first bs a t ≡ some t'
    → Resent a t t'
unfolding resend_first window_total flight
resend_first-Resent [] a t t' here r e = rw (← some_inj e) (record { total = refl; retrying = r })
resend_first-Resent (b ∷ bs) a t t' here r e = elim (Bool-cases (leb 10 b.num)) [
  | inl given_up ↦ let wrong : none ≡ some t' = rw given_up at e in cc
  | inr again ↦
      let all : All (λ b. b.num ≤ 10) (b ∷ bs) = rw here at r.retries in
      let bound = timeout_bound b.num (ground arith) in
      rw (← some_inj (rw again at e)) (record {
        total = rw (==_refl a, here) refl;
        retrying = rw (==_refl a) (record { retries = (ground arith, all.1); timer = bound });
      })
]

-- The send timer keeps the window and what is under way as they are, keeps the count of retries at ten
-- or less and its own time below 2 ^ 31.
pub resend-Resent :
    (a : ℕ) (t t' : Tcp) → IsRetrying (t.socks a) → resend a t ≡ some t' → Resent a t t'
unfolding resend
resend-Resent a t t' r e = resend_first-Resent (t.socks a).send_list a t t' refl r e

-- A data packet, a control packet and an acknowledgement keep the sum of the window and the bytes under
-- way, modulo 2 ^ 16: what is sent is taken from the window, and what is acknowledged goes back.
pub window_total-kept :
    (a ack flags : ℕ) (payload : List ℕ) (t : Tcp)
    → (window_total ((tcp_send_packet a payload t).socks a) ≡ window_total (t.socks a))
      × (window_total ((tcp_send_control_packet a flags t).socks a) ≡ window_total (t.socks a))
      × (window_total (remove_from_send_list ack (t.socks a)) ≡ window_total (t.socks a))
window_total-kept a ack flags payload t = (
  ap window_total (tcp_send_packet-at a payload t) ∙ packet-window_total a payload t,
  control-window_total a flags t,
  remove_from_send_list-window_total ack (t.socks a),
)
