-- ===== src/Net/Tcp/Write.antt =====
-- What `tcp_sock_write` of tcp_sock.c of Computer Networks/pr11-网络传输机制实验三 puts on the wire.
use ucas_coursework.Prelude.{
  ℕ, zero, suc, ◌+◌, ◌-◌, ◌^◌, ◌<◌, ◌≤◌, ◌≡◌, refl, sym, ap, ◌∙◌, List, [], ◌∷◌, ◌++◌, append_assoc,
  append-nil, arith, ◌==◌, ltb, leb, length, take, drop, take-append-drop, length-take, length-drop,
  min, All, Bool-cases, inl, inr, if◌then◌else◌, ==_refl, length-append, ◌⊎◌,
}
use ucas_coursework.Net.Tcp.{Segment, Sock, Tcp, u32, u16, tcp_psh, tcp_ack, modify_sock}
use ucas_coursework.Net.Tcp.Output.{
  segment_of, tcp_send_packet, insert_send, init_timer, tcp_timer_send, headers_size,
}
use ucas_coursework.Net.Tcp.Api.{
  Write, returned, asleep, segment_size, send_length, write_loop, tcp_sock_write, begin_sleep,
}
use ucas_coursework.Net.Tcp.Seq.{less_or_equal_32b, difference}

-- A data packet of a socket, with its number and its payload.
abbrev pub data_segment : Sock → ℕ → List ℕ → Segment
data_segment s seq payload = segment_of (record s { snd_nxt = seq }) (tcp_psh + tcp_ack) payload

-- Packets for pieces of data in a row, the numbers from `seq` on.
abbrev pub numbered : (ℕ → List ℕ → Segment) → ℕ → List (List ℕ) → List Segment
numbered segment seq [] = []
numbered segment seq (c ∷ cs) = segment seq c ∷ numbered segment (u32 (seq + length c)) cs

abbrev pub flatten : List (List ℕ) → List ℕ
flatten [] = []
flatten (c ∷ cs) = c ++ flatten cs

abbrev pub unsent : Write → List ℕ
unsent returned = []
unsent (asleep bytes) = bytes

send_length_lem :
    (w n : ℕ)
    → 0 < w
    → w < 2 ^ 16
    → 0 < n
    → n < 2 ^ 31
    → send_length w n ≡ min (min w n) segment_size
unfolding send_length less_or_equal_32b difference
send_length_lem w n hw hw' hn hn' = ground arith

-- The socket after a data packet.
abbrev pub after_packet : ℕ → List ℕ → Tcp → Sock
after_packet a payload t =
    let s = t.socks a in
    let len : ℕ = length payload in
    let pkt = segment_of s (tcp_psh + tcp_ack) payload in
    record s {
      snd_nxt = u32 (s.snd_nxt + len);
      snd_wnd = u16 (s.snd_wnd + 2 ^ 16 - u16 len);
      ref_cnt = if s.timer_send.type == 0 then s.ref_cnt + 1 else s.ref_cnt;
      timer_send =
          if s.timer_send.type == 0
          then record { type = 1; timeout = tcp_timer_send }
          else s.timer_send;
      send_list =
          s.send_list
          ++ (record {
            pkt = pkt;
            seq = s.snd_nxt;
            num = 0;
            data_size = len;
            tot_size = headers_size + len;
          }
              ∷ []);
    }

pub tcp_send_packet-at :
    (a : ℕ) (payload : List ℕ) (t : Tcp)
    → (tcp_send_packet a payload t).socks a ≡ after_packet a payload t
unfolding tcp_send_packet insert_send init_timer
tcp_send_packet-at a payload t = elim (Bool-cases ((t.socks a).timer_send.type == 0)) [
  | inl first ↦ rw (first, ==_refl a) refl
  | inr more ↦ rw (more, ==_refl a) refl
]

tcp_send_packet-sent :
    (a : ℕ) (payload : List ℕ) (t : Tcp)
    → (tcp_send_packet a payload t).sent
      ≡ t.sent ++ (data_segment (t.socks a) (t.socks a).snd_nxt payload ∷ [])
unfolding tcp_send_packet insert_send init_timer
tcp_send_packet-sent a payload t = elim (Bool-cases ((t.socks a).timer_send.type == 0)) [
  | inl first ↦ rw first refl
  | inr more ↦ rw more refl
]

-- From `t` to `t'` the call sent pieces of `bytes`.
pub record Written (a : ℕ) (bytes : List ℕ) (t : Tcp) (result : Write) (t' : Tcp) : Type 0 where
  pub chunks : List (List ℕ)
  pub sent : t'.sent ≡ t.sent ++ numbered (data_segment (t.socks a)) (t.socks a).snd_nxt chunks
  pub sizes : All (λ c. (0 < length c) × (length c ≤ segment_size)) chunks
  pub whole : flatten chunks ++ unsent result ≡ bytes
  pub window : (t'.socks a).snd_wnd + length (flatten chunks) ≡ (t.socks a).snd_wnd
  pub next : (t'.socks a).snd_nxt ≡ u32 ((t.socks a).snd_nxt + length (flatten chunks))
  pub end : (result ≡ returned) ⊎ ((t'.socks a).snd_wnd ≡ 0)

module _ (a : ℕ) (bytes : List ℕ) (t : Tcp) where
  abbrev chunk : List ℕ
  chunk = take (send_length (t.socks a).snd_wnd (length bytes)) bytes

  abbrev rest : List ℕ
  rest = drop (send_length (t.socks a).snd_wnd (length bytes)) bytes

  -- What holds before a turn of the loop.
  pub record CanSend : Type 0 where
    pub number : (t.socks a).snd_nxt < 2 ^ 32
    pub window : (t.socks a).snd_wnd < 2 ^ 16
    pub some_bytes : 0 < length bytes
    pub size : length bytes < 2 ^ 31

  module _ (can : CanSend) (is_open : 0 < (t.socks a).snd_wnd) where
    chunk-length :
        (length chunk ≡ min (min (t.socks a).snd_wnd (length bytes)) segment_size)
        × (length rest ≡ length bytes - length chunk)
        × (send_length (t.socks a).snd_wnd (length bytes) ≡ length chunk)
    chunk-length =
        let len : ℕ = send_length (t.socks a).snd_wnd (length bytes) in
        let lem =
          send_length_lem (t.socks a).snd_wnd (length bytes) is_open can.window can.some_bytes
            can.size in
        (
          omega (arith, lem, length-take len bytes),
          omega (arith, lem, length-take len bytes, length-drop len bytes),
          omega (arith, lem, length-take len bytes),
        )

    -- A turn in front of what the others write.
    turn :
        (result : Write) (t' : Tcp)
        → Written a rest (tcp_send_packet a chunk t) result t'
        → Written a bytes t result t'
    turn result t' w =
        let s₁ = tcp_send_packet-at a chunk t in
        let size = chunk-length.0 in
        let window : (t'.socks a).snd_wnd + length (flatten w.chunks)
            ≡ u16 ((t.socks a).snd_wnd + 2 ^ 16 - u16 (length chunk)) =
          rw s₁ at w.window in
        let next : (t'.socks a).snd_nxt
            ≡ u32 (u32 ((t.socks a).snd_nxt + length chunk) + length (flatten w.chunks)) =
          rw s₁ at w.next in
        let more = length-append chunk (flatten w.chunks) in
        record {
          chunks = chunk ∷ w.chunks;
          sent =
              w.sent
              ∙ rw (s₁, tcp_send_packet-sent a chunk t)
                  (append_assoc t.sent (data_segment (t.socks a) (t.socks a).snd_nxt chunk ∷ []) (
                    numbered (data_segment (t.socks a)) (u32 ((t.socks a).snd_nxt + length chunk))
                      w.chunks));
          sizes = ((omega (arith, size, can.some_bytes), omega (arith, size)), w.sizes);
          whole =
              append_assoc chunk (flatten w.chunks) (unsent result)
              ∙ ap (λ l. chunk ++ l) w.whole
              ∙ take-append-drop (send_length (t.socks a).snd_wnd (length bytes)) bytes;
          window = omega (arith, window, more, size, can.window);
          next = omega (arith, next, more);
          end = w.end;
        }

-- Nothing more is sent.
stop-Written :
    (a : ℕ) (bytes : List ℕ) (t : Tcp) (result : Write) (t' : Tcp)
    → t'.sent ≡ t.sent
    → (t'.socks a).snd_wnd ≡ (t.socks a).snd_wnd
    → (t'.socks a).snd_nxt ≡ (t.socks a).snd_nxt
    → (t.socks a).snd_nxt < 2 ^ 32
    → unsent result ≡ bytes
    → (result ≡ returned) ⊎ ((t'.socks a).snd_wnd ≡ 0)
    → Written a bytes t result t'
stop-Written a bytes t result t' sent window next small whole end = record {
  chunks = [];
  sent = sent ∙ sym (append-nil t.sent);
  sizes = tt;
  whole = whole;
  window = omega (arith, window);
  next = omega (arith, next);
  end = end;
}

nil_all : (xs : List ℕ) → length xs ≡ 0 → [] ≡ xs
nil_all [] h = refl
nil_all (x ∷ xs) h = absurd (omega arith)

write_loop-Written :
    (n a : ℕ) (bytes : List ℕ) (t : Tcp)
    → CanSend a bytes t
    → length bytes ≤ n
    → Written a bytes t (write_loop n a bytes t).0 (write_loop n a bytes t).1
unfolding write_loop begin_sleep
write_loop-Written zero a bytes t can le = absurd (omega (arith, can.some_bytes))
write_loop-Written (suc n) a bytes t can le = elim (Bool-cases (ltb 0 (t.socks a).snd_wnd)) [
  | inl is_open ↦
      let wide : 0 < (t.socks a).snd_wnd = ground arith in
      let (size, left, len) = chunk-length a bytes t can wide in
      let next = tcp_send_packet a (chunk a bytes t) t in
      let s₁ = tcp_send_packet-at a (chunk a bytes t) t in
      let small : (next.socks a).snd_nxt < 2 ^ 32 = rw s₁ (omega arith) in
      elim (Bool-cases (leb (length bytes) (send_length (t.socks a).snd_wnd (length bytes)))) [
        | inl last ↦
            let all : length (rest a bytes t) ≡ 0 = ground (arith, left, len) in
            rw (is_open, last)
              (turn a bytes t can wide returned next (
                stop-Written a (rest a bytes t) next returned next refl refl refl small
                  (nil_all (rest a bytes t) all) (inl refl)))
        | inr more ↦
            let can' : CanSend a (rest a bytes t) next = record {
              number = small;
              window = rw s₁ (omega arith);
              some_bytes = ground (arith, left, len);
              size = omega (arith, left, can.size);
            } in
            rw (is_open, more)
              (turn a bytes t can wide _ _ (
                write_loop-Written n a (rest a bytes t) next can'
                  (omega (arith, left, size, can.some_bytes, le))))
      ]
  | inr shut ↦
      let closed : (t.socks a).snd_wnd ≡ 0 = ground arith in
      rw shut (
        stop-Written a bytes t (asleep bytes)
          (modify_sock a (λ s. record s { wait_send = begin_sleep s.wait_send }) t) refl
          (rw (==_refl a) refl) (rw (==_refl a) refl) can.number refl (inr (rw (==_refl a) closed)))
]

-- A call of `tcp_sock_write` with at most 2 ^ 31 - 1 bytes and at least one: the pieces of at most 1446
-- bytes that are sent are, in a row, the front of the data, their numbers follow each other from
-- `snd_nxt` on, the window shrinks by what was sent, and the call ends only where all of the data is
-- sent or the window is used up.
pub tcp_sock_write-Written :
    (a : ℕ) (bytes : List ℕ) (t : Tcp)
    → CanSend a bytes t
    → Written a bytes t (tcp_sock_write a bytes t).0 (tcp_sock_write a bytes t).1
unfolding tcp_sock_write
tcp_sock_write-Written a bytes t can =
    write_loop-Written (length bytes + 1) a bytes t can (omega arith)
