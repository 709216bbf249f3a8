-- ===== src/Net/Tcp/Transfer.antt =====
-- What is written at one end of a connection of Computer Networks/pr11-网络传输机制实验三, and what the other end
-- has of it.
use ucas_coursework.Prelude.{
  ℕ, ◌+◌, ◌^◌, ◌<◌, ◌≡◌, refl, sym, ap, ◌∙◌, some, List, [], ◌∷◌, ◌++◌, map, append_assoc,
  append-nil, arith, ◌==◌, ==_iff, true, length, length-append, get_or,
}
use native.Mathlib.Nat.{add-zero}
use ucas_coursework.Net.Ring.{read_bytes}
use ucas_coursework.Net.Ring.Contents.{IsRing, contents}
use ucas_coursework.Net.Tcp.{Segment, Sock, Tcp, Cb, u32}
use ucas_coursework.Net.Tcp.Input.{take_next, tcp_recv_data}
use ucas_coursework.Net.Tcp.Api.{Write, tcp_sock_write}
use ucas_coursework.Net.Tcp.Handshake.{cb_of}
use ucas_coursework.Net.Tcp.Delivery.{total, IsIdle, IsPiece, IsReceiving, length-held}
use ucas_coursework.Net.Tcp.InOrder.{fresh_bytes, next_bytes, Received, tcp_recv_data-Received}
use ucas_coursework.Net.Tcp.Arrivals.{recv_all}
use ucas_coursework.Net.Tcp.Write.{
  data_segment, numbered, flatten, unsent, Written, CanSend, tcp_sock_write-Written,
}

-- The bytes of a list as a stream
abbrev stream_of : List ℕ → ℕ → ℕ
stream_of bytes i = get_or bytes i 0

get_or-behind :
    (pre : List ℕ) (x : ℕ) (rest : List ℕ) → stream_of (pre ++ (x ∷ rest)) (length pre) ≡ x
get_or-behind [] x rest = refl
get_or-behind (p ∷ pre) x rest = get_or-behind pre x rest

read_bytes-stream :
    (pre c rest : List ℕ) → c ≡ read_bytes (stream_of (pre ++ (c ++ rest))) (length pre) (length c)
unfolding read_bytes
read_bytes-stream pre [] rest = refl
read_bytes-stream pre (x ∷ c) rest =
    let one : length (pre ++ (x ∷ [])) ≡ length pre + 1 = length-append pre (x ∷ []) in
    let shift : (pre ++ (x ∷ [])) ++ (c ++ rest) ≡ pre ++ (x ∷ (c ++ rest)) =
      append_assoc pre (x ∷ []) (c ++ rest) in
    let tail : c ≡ read_bytes (stream_of (pre ++ (x ∷ (c ++ rest)))) (length pre + 1) (length c) =
      rw (← shift, ← one) (read_bytes-stream (pre ++ (x ∷ [])) c rest) in
    ap (λ l. l ∷ c) (sym (get_or-behind pre x (c ++ rest)))
    ∙ ap (λ l. stream_of (pre ++ (x ∷ (c ++ rest))) (length pre) ∷ l) tail

-- The chunks are the bytes of the stream from `k` on.
abbrev Follow : (ℕ → ℕ) → ℕ → List (List ℕ) → Type 0
Follow stream k [] = Unit
Follow stream k (c ∷ cs) = (c ≡ read_bytes stream k (length c)) × Follow stream (k + length c) cs

flatten-Follow :
    (pre : List ℕ) (cs : List (List ℕ)) → Follow (stream_of (pre ++ flatten cs)) (length pre) cs
flatten-Follow pre [] = tt
flatten-Follow pre (c ∷ cs) =
    let shift : (pre ++ c) ++ flatten cs ≡ pre ++ (c ++ flatten cs) =
      append_assoc pre c (flatten cs) in
    let rest : Follow (stream_of (pre ++ (c ++ flatten cs))) (length pre + length c) cs =
      rw (← shift, ← length-append pre c) (flatten-Follow (pre ++ c) cs) in
    (read_bytes-stream pre c (flatten cs), rest)

module _ (base : ℕ) (stream : ℕ → ℕ) where
  -- The socket has the first `k` bytes of the stream, and no packet waits at it.
  record IsUpTo (k : ℕ) (s : Sock) : Type 0 where
    receiving : IsReceiving base stream k s
    idle : IsIdle s
    empty : total s.recv_list ≡ 0

  -- From `s` to `s'` the socket has got the bytes, and nothing else.
  record Got (k : ℕ) (bytes : List ℕ) (s s' : Sock) : Type 0 where
    up_to : IsUpTo (k + length bytes) s'
    held : contents s'.rcv_buf ≡ contents s.rcv_buf ++ bytes
    size : s'.rcv_buf.size ≡ s.rcv_buf.size

  -- The packet that comes next is handed over, and nothing else.
  Received-Got :
      (k k' : ℕ) (cb : Cb) (s s' : Sock)
      → IsUpTo k s
      → cb.seq ≡ u32 (base + k)
      → cb.payload ≡ read_bytes stream k (length cb.payload)
      → Received base stream k cb k' s s'
      → Got k cb.payload s s'
  Received-Got k k' cb s s' g at taken r =
      let here : (cb.seq == s.rcv_nxt) ≡ true = (==_iff _ _).1 (at ∙ sym g.receiving.next) in
      let fresh : fresh_bytes cb s ≡ length cb.payload = rw here refl in
      let next : next_bytes cb s ≡ length cb.payload = rw here refl in
      let held = length-held base stream k k' s s' r.advance in
      let exact : k' ≡ k + length cb.payload =
        omega (arith, held, fresh, next, r.all, r.progress, g.empty) in
      record {
        up_to = record {
          receiving = rw (← exact) r.advance.receiving;
          idle = r.idle;
          empty = omega (arith, held, fresh, next, r.all, r.progress, g.empty);
        };
        held =
            r.advance.held
            ∙ ap (λ n. contents s.rcv_buf ++ read_bytes stream k n) (omega (arith, exact))
            ∙ ap (λ l. contents s.rcv_buf ++ l) (sym taken);
        size = r.size;
      }

  tcp_recv_data-Got :
      (k b : ℕ) (cb : Cb) (u : Tcp)
      → IsUpTo k (u.socks b)
      → cb.seq ≡ u32 (base + k)
      → cb.payload ≡ read_bytes stream k (length cb.payload)
      → k + length cb.payload < 2 ^ 32
      → length (contents (u.socks b).rcv_buf) + length cb.payload < (u.socks b).rcv_buf.size
      → (u' : Tcp) × (tcp_recv_data b cb u ≡ some u') × Got k cb.payload (u.socks b) (u'.socks b)
  tcp_recv_data-Got k b cb u g at taken inside room =
      let piece : IsPiece base stream cb.seq cb.payload = record {
        offset = k;
        inside = inside;
        numbered = at;
        taken = taken;
      } in
      let (k', u', run, r) =
        tcp_recv_data-Received base stream k b cb u g.receiving g.idle piece
          (omega (arith, room, g.empty)) in
      (u', run, Received-Got k k' cb (u.socks b) (u'.socks b) g at taken r)

  Got-trans :
      (k : ℕ) (c d : List ℕ) (s s' s'' : Sock)
      → Got k c s s'
      → Got (k + length c) d s' s''
      → Got k (c ++ d) s s''
  Got-trans k c d s s' s'' g h =
      let sum : k + length c + length d ≡ k + length (c ++ d) = omega (arith, length-append c d) in
      record {
        up_to = rw (← sum) h.up_to;
        held = h.held ∙ ap (λ l. l ++ d) g.held ∙ append_assoc (contents s.rcv_buf) c d;
        size = h.size ∙ g.size;
      }

module _ (base : ℕ) (stream : ℕ → ℕ) (b : ℕ) (s₀ : Sock) where
  -- The packets of pieces in a row are handed over one after the other.
  recv_all-Got :
      (k seq : ℕ) (cs : List (List ℕ)) (u : Tcp)
      → IsUpTo base stream k (u.socks b)
      → Follow stream k cs
      → seq ≡ u32 (base + k)
      → k + length (flatten cs) < 2 ^ 32
      → length (contents (u.socks b).rcv_buf) + length (flatten cs) < (u.socks b).rcv_buf.size
      → (u' : Tcp) × (recv_all b (map cb_of (numbered (data_segment s₀) seq cs)) u ≡ some u')
        × Got base stream k (flatten cs) (u.socks b) (u'.socks b)
  recv_all-Got k seq [] u g f at inside room = (
    u,
    refl,
    record {
      up_to = rw (add-zero k) g;
      held = sym (append-nil (contents (u.socks b).rcv_buf));
      size = refl;
    },
  )
  recv_all-Got k seq (c ∷ cs) u g f at inside room =
      let sum = length-append c (flatten cs) in
      let (u₁, run, one) =
        tcp_recv_data-Got base stream k b (cb_of (data_segment s₀ seq c)) u g at f.0
          (omega (arith, sum)) (omega (arith, sum, room)) in
      let longer : length (contents (u₁.socks b).rcv_buf)
          ≡ length (contents (u.socks b).rcv_buf) + length c =
        ap length one.held ∙ length-append (contents (u.socks b).rcv_buf) c in
      let (u', runs, more) =
        recv_all-Got (k + length c) (u32 (seq + length c)) cs u₁ one.up_to f.1 (omega (arith, at))
          (omega (arith, sum, inside)) (omega (arith, sum, room, longer, one.size)) in
      (
        u',
        rw run runs,
        Got-trans base stream k c (flatten cs) (u.socks b) (u₁.socks b) (u'.socks b) one more,
      )

-- The other end of a connection waits for the next byte that `a` sends, and has nothing put aside.
pub record IsPeer (a : ℕ) (t : Tcp) (b : ℕ) (u : Tcp) : Type 0 where
  pub next : (u.socks b).rcv_nxt ≡ (t.socks a).snd_nxt
  pub ring : IsRing (u.socks b).rcv_buf
  pub nothing_waits : (u.socks b).recv_list ≡ []

IsPeer-IsUpTo :
    (stream : ℕ → ℕ) (a : ℕ) (t : Tcp) (b : ℕ) (u : Tcp)
    → (t.socks a).snd_nxt < 2 ^ 32
    → IsPeer a t b u
    → IsUpTo (t.socks a).snd_nxt stream 0 (u.socks b)
unfolding total take_next
IsPeer-IsUpTo stream a t b u small peer = record {
  receiving = record {
    next = omega (arith, peer.next);
    inside = omega arith;
    ring = peer.ring;
    pieces = rw peer.nothing_waits tt;
  };
  idle = rw peer.nothing_waits refl;
  empty = rw peer.nothing_waits refl;
}

-- The packets that the call sent, and the peer that has taken all of them.
abbrev pub Delivered : ℕ → List ℕ → Tcp → ℕ → Tcp → Write → Tcp → Type 0
Delivered a bytes t b u result t' =
    (segments : List Segment) × (u' : Tcp) × (t'.sent ≡ t.sent ++ segments)
    × (recv_all b (map cb_of segments) u ≡ some u')
    × (contents (u'.socks b).rcv_buf ++ unsent result ≡ contents (u.socks b).rcv_buf ++ bytes)

Written-Delivered :
    (a : ℕ) (bytes : List ℕ) (t : Tcp) (b : ℕ) (u : Tcp) (result : Write) (t' : Tcp)
    → CanSend a bytes t
    → IsPeer a t b u
    → length (contents (u.socks b).rcv_buf) + length bytes < (u.socks b).rcv_buf.size
    → Written a bytes t result t'
    → Delivered a bytes t b u result t'
Written-Delivered a bytes t b u result t' can peer room w =
    let base : ℕ = (t.socks a).snd_nxt in
    let stream = stream_of (flatten w.chunks) in
    let sum : length (flatten w.chunks) + length (unsent result) ≡ length bytes =
      sym (length-append (flatten w.chunks) (unsent result)) ∙ ap length w.whole in
    let (u', run, got) =
      recv_all-Got base stream b (t.socks a) 0 base w.chunks u
        (IsPeer-IsUpTo stream a t b u can.number peer) (flatten-Follow [] w.chunks)
        (omega (arith, can.number)) (omega (arith, sum, can.size)) (omega (arith, sum, room)) in
    (
      numbered (data_segment (t.socks a)) base w.chunks,
      u',
      w.sent,
      run,
      ap (λ l. l ++ unsent result) got.held
          ∙ append_assoc (contents (u.socks b).rcv_buf) (flatten w.chunks) (unsent result)
          ∙ ap (λ l. contents (u.socks b).rcv_buf ++ l) w.whole,
    )

-- A call of `tcp_sock_write` with at most 2 ^ 31 - 1 bytes and at least one, and a peer that waits for the
-- byte numbered `snd_nxt`, has put no packet aside and has room for all of the data: `tcp_recv_data` at the
-- peer takes the packets that the call sends, in their order, without failing, and what its receive
-- buffer then holds, together with the bytes that the call has not sent yet, is what it held before and
-- all of the data.
pub tcp_sock_write-Delivered :
    (a : ℕ) (bytes : List ℕ) (t : Tcp) (b : ℕ) (u : Tcp)
    → CanSend a bytes t
    → IsPeer a t b u
    → length (contents (u.socks b).rcv_buf) + length bytes < (u.socks b).rcv_buf.size
    → Delivered a bytes t b u (tcp_sock_write a bytes t).0 (tcp_sock_write a bytes t).1
tcp_sock_write-Delivered a bytes t b u can peer room =
    Written-Delivered a bytes t b u (tcp_sock_write a bytes t).0 (tcp_sock_write a bytes t).1 can
      peer room (tcp_sock_write-Written a bytes t can)
