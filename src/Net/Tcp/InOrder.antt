-- ===== src/Net/Tcp/InOrder.antt =====
-- What `tcp_recv_data` of tcp_in.c of Computer Networks/pr11-网络传输机制实验三 makes of a packet.
use ucas_coursework.Prelude.{
  ℕ, ◌+◌, ◌<◌, ◌≤◌, ◌≡◌, refl, ap, ◌∙◌, Bool, true, false, Option, none, some, List, [], ◌∷◌, ◌++◌,
  arith, ◌==◌, length, All-append, Bool-cases, Option-cases, inl, inr, if◌then◌else◌, ◌||◌, ==_refl,
}
use ucas_coursework.Net.Ring.Contents.{contents}
use ucas_coursework.Net.Tcp.{RecvBuffer, Sock, Cb, Tcp}
use ucas_coursework.Net.Tcp.Seq.{less_than_32b}
use ucas_coursework.Net.Tcp.Output.{
  remove_from_send_list, reset_timer, some_acked, tcp_send_control_packet,
}
use ucas_coursework.Net.Tcp.Input.{
  take_next, receive, finish_recv, tcp_recv_data, wake_reader, u32_pred,
}
use ucas_coursework.Net.Tcp.Delivery.{
  total, IsPiece, IsReceiving, Advance, IsBufferPiece, Advance-refl, Advance-trans, IsIdle, stored,
  drain-Done, deliver-next, length-held,
}

-- A packet behind the list is not the next where it does not have the next number.
take_next-append :
    (end : ℕ) (bs : List RecvBuffer) (b : RecvBuffer)
    → take_next end bs ≡ none
    → (b.seq == end) ≡ false
    → take_next end (bs ++ (b ∷ [])) ≡ none
unfolding take_next
take_next-append end [] b h ne = rw ne refl
take_next-append end (c ∷ bs) b h ne = elim (Bool-cases (c.seq == end)) [
  | inl hit ↦
      let wrong : ◌≡◌ {A = Option (List ℕ × List RecvBuffer)} (some (c.payload, bs)) none =
        rw hit at h in
      cc
  | inr miss ↦ elim (Option-cases (take_next end bs)) [
    | inl stop ↦ rw (miss, take_next-append end bs b stop ne) refl
    | inr (p, e) ↦
        let wrong : ◌≡◌ {A = Option (List ℕ × List RecvBuffer)} (some (p.0, c ∷ p.1)) none =
          rw (miss, e) at h in
        cc
  ]
]

total-append :
    (bs : List RecvBuffer) (b : RecvBuffer) → total (bs ++ (b ∷ [])) ≡ total bs + length b.payload
unfolding total
total-append [] b = omega arith
total-append (c ∷ bs) b = omega (arith, total-append bs b)

-- The bytes that a packet adds: those of a packet from the past are not used.
abbrev pub fresh_bytes : Cb → Sock → ℕ
fresh_bytes cb s =
    if cb.seq == s.rcv_nxt || less_than_32b s.rcv_nxt cb.seq then length cb.payload else 0

-- How far the packet alone brings the stream.
abbrev pub next_bytes : Cb → Sock → ℕ
next_bytes cb s = if cb.seq == s.rcv_nxt then length cb.payload else 0

module _ (base : ℕ) (stream : ℕ → ℕ) (k : ℕ) (cb : Cb) where
  -- The socket after a packet, from `s` before it.
  pub record Received (k' : ℕ) (s s' : Sock) : Type 0 where
    pub advance : Advance base stream k k' s s'
    pub idle : IsIdle s'
    pub all : stored s' ≡ stored s + fresh_bytes cb s
    pub progress : k + next_bytes cb s ≤ k'
    pub size : s'.rcv_buf.size ≡ s.rcv_buf.size

  module _ (s : Sock) (g : IsReceiving base stream k s)
      (piece : IsPiece base stream cb.seq cb.payload) where
    receive-Received :
        IsIdle s
        → stored s + length cb.payload < s.rcv_buf.size
        → (b : Bool) × (k' : ℕ) × (s' : Sock) × (receive cb s ≡ some (b, s')) × Received k' s s'
    unfolding receive
    receive-Received idle room = elim (Bool-cases (cb.seq == s.rcv_nxt)) [
      | inl next ↦
          let at_next : cb.seq ≡ s.rcv_nxt = ground arith in
          let (s₁, delivered, moved, list, size) =
            deliver-next base stream k s cb.payload g (rw at_next at piece) (omega arith) in
          let longer = length-held base stream k (k + length cb.payload) s s₁ moved in
          let sum : stored s₁ ≡ stored s + length cb.payload = rw list (omega (arith, longer)) in
          let (k', s', loop, rest, idle', all, size') =
            drain-Done base stream (length s.recv_list) (k + length cb.payload) s₁ moved.receiving
              (rw (sum, size) room) (rw list (omega arith)) in
          (
            true,
            k',
            s',
            rw (next, delivered, loop) refl,
            record {
              advance = Advance-trans base stream k (k + length cb.payload) k' s s₁ s' moved rest;
              idle = idle';
              all = rw next (all ∙ sum);
              progress = rw next rest.forward;
              size = size' ∙ size;
            },
          )
      | inr other ↦ elim (Bool-cases (less_than_32b s.rcv_nxt cb.seq)) [
        | inl ahead ↦ (
          false,
          k,
          record s {
            recv_list = s.recv_list ++ (record { payload = cb.payload; seq = cb.seq } ∷ []);
          },
          rw (other, ahead) refl,
          record {
            advance = record {
              forward = omega arith;
              receiving = record {
                next = g.next;
                inside = g.inside;
                ring = g.ring;
                pieces =
                    All-append (IsBufferPiece base stream) s.recv_list
                      (record { payload = cb.payload; seq = cb.seq } ∷ []) g.pieces (piece, tt);
              };
              held = (Advance-refl base stream k s g).held;
            };
            idle =
                take_next-append s.rcv_nxt s.recv_list
                  (record { payload = cb.payload; seq = cb.seq }) idle other;
            all =
                rw (other, ahead)
                  (omega (
                    arith,
                    total-append s.recv_list (record { payload = cb.payload; seq = cb.seq }),
                  ));
            progress = rw other (omega arith);
            size = refl;
          },
        )
        | inr behind ↦ (
          true,
          k,
          s,
          rw (other, behind) refl,
          record {
            advance = Advance-refl base stream k s g;
            idle = idle;
            all = rw (other, behind) (omega arith);
            progress = rw other (omega arith);
            size = refl;
          },
        )
      ]
    ]

-- The receiving side of two sockets is the same.
pub record SameInput (s s' : Sock) : Type 0 where
  pub buffer : s'.rcv_buf ≡ s.rcv_buf
  pub next : s'.rcv_nxt ≡ s.rcv_nxt
  pub waiting : s'.recv_list ≡ s.recv_list

remove_from_send_list-SameInput : (ack : ℕ) (s : Sock) → SameInput s (remove_from_send_list ack s)
unfolding remove_from_send_list reset_timer
remove_from_send_list-SameInput ack s = elim (Bool-cases (some_acked ack s.send_list)) [
  | inl gone ↦ rw gone (record { buffer = refl; next = refl; waiting = refl })
  | inr left ↦ rw left (record { buffer = refl; next = refl; waiting = refl })
]

-- The socket before its acknowledged segments go.
abbrev pub woken : Bool → ℕ → Sock → Sock
woken in_order una s = record (wake_reader in_order s) { snd_una = una }

pub finish_recv-at :
    (a : ℕ) (cb : Cb) (t : Tcp) (b : Bool) (s : Sock)
    → (finish_recv a cb t b s).socks a
      ≡ remove_from_send_list cb.ack (woken (cb.seq == (t.socks a).rcv_nxt) (u32_pred cb.ack) s)
unfolding finish_recv tcp_send_control_packet
finish_recv-at a cb t true s = rw (==_refl a) refl
finish_recv-at a cb t false s = rw (==_refl a) refl

woken-SameInput : (b : Bool) (una : ℕ) (s : Sock) → SameInput s (woken b una s)
woken-SameInput true una s = record { buffer = refl; next = refl; waiting = refl }
woken-SameInput false una s = record { buffer = refl; next = refl; waiting = refl }

SameInput-trans : {s s' s'' : Sock} → SameInput s s' → SameInput s' s'' → SameInput s s''
SameInput-trans p q = record {
  buffer = q.buffer ∙ p.buffer;
  next = q.next ∙ p.next;
  waiting = q.waiting ∙ p.waiting;
}

finish_recv-SameInput :
    (a : ℕ) (cb : Cb) (t : Tcp) (b : Bool) (s : Sock)
    → SameInput s ((finish_recv a cb t b s).socks a)
finish_recv-SameInput a cb t b s =
    let in_order : Bool = cb.seq == (t.socks a).rcv_nxt in
    let una : ℕ = u32_pred cb.ack in
    rw (finish_recv-at a cb t b s) (
      SameInput-trans (woken-SameInput in_order una s)
        (remove_from_send_list-SameInput cb.ack (woken in_order una s)))

Received-SameInput :
    {base : ℕ} {stream : ℕ → ℕ} {k : ℕ} {cb : Cb} {k' : ℕ} {s s' s'' : Sock}
    → SameInput s' s''
    → Received base stream k cb k' s s'
    → Received base stream k cb k' s s''
Received-SameInput same r = record {
  advance = record {
    forward = r.advance.forward;
    receiving = record {
      next = same.next ∙ r.advance.receiving.next;
      inside = r.advance.receiving.inside;
      ring = rw same.buffer r.advance.receiving.ring;
      pieces = rw same.waiting r.advance.receiving.pieces;
    };
    held = ap contents same.buffer ∙ r.advance.held;
  };
  idle = rw (same.next, same.waiting) r.idle;
  all = rw (same.buffer, same.waiting) r.all;
  progress = r.progress;
  size = ap (λ b. b.size) same.buffer ∙ r.size;
}

-- A socket that has received the first `k` bytes of a stream, in any order of arrival, and has room for
-- a packet of it: `tcp_recv_data` succeeds; the receive buffer has grown by a stretch of the stream that
-- begins at `k`; the packets that wait are pieces of the stream still, and none of them could be handed
-- over; no byte of the packet is lost, unless the code takes it for one of the past; and a packet whose
-- number is the next is handed over.
pub tcp_recv_data-Received :
    (base : ℕ) (stream : ℕ → ℕ) (k a : ℕ) (cb : Cb) (t : Tcp)
    → IsReceiving base stream k (t.socks a)
    → IsIdle (t.socks a)
    → IsPiece base stream cb.seq cb.payload
    → stored (t.socks a) + length cb.payload < (t.socks a).rcv_buf.size
    → (k' : ℕ) × (t' : Tcp) × (tcp_recv_data a cb t ≡ some t')
      × Received base stream k cb k' (t.socks a) (t'.socks a)
unfolding tcp_recv_data
tcp_recv_data-Received base stream k a cb t g idle piece room =
    let (b, k', s', received, is) =
      receive-Received base stream k cb (t.socks a) g piece idle room in
    (
      k',
      finish_recv a cb t b s',
      rw received refl,
      Received-SameInput (finish_recv-SameInput a cb t b s') is,
    )
