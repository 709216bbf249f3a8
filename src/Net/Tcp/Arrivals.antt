-- ===== src/Net/Tcp/Arrivals.antt =====
-- Packets of one stream that arrive in any order, some of them twice, at `tcp_recv_data` of tcp_in.c,
-- Computer Networks/pr11-网络传输机制实验三.
use ucas_coursework.Prelude.{
  ℕ, ◌+◌, ◌<◌, ◌≤◌, ◌≡◌, refl, Option, some, List, [], ◌∷◌, arith, length, All, on_some, Bool-cases,
  inl, inr, ◌==◌, ◌||◌, ◌^◌, ap, sym, ◌∙◌, true, ==_iff,
}
use ucas_coursework.Net.Tcp.{Sock, Cb, Tcp, u32}
use ucas_coursework.Net.Tcp.Seq.{difference, less_than_32b}
use ucas_coursework.Net.Tcp.Input.{tcp_recv_data}
use ucas_coursework.Net.Tcp.Delivery.{
  IsPiece, IsReceiving, Advance, Advance-refl, Advance-trans, IsIdle, stored,
}
use ucas_coursework.Net.Tcp.InOrder.{fresh_bytes, next_bytes, tcp_recv_data-Received}

-- The packets one after the other.
abbrev pub recv_all : ℕ → List Cb → Tcp → Option Tcp
recv_all a [] t = some t
recv_all a (cb ∷ cbs) t = on_some (recv_all a cbs) (tcp_recv_data a cb t)

abbrev pub payloads : List Cb → ℕ
payloads [] = 0
payloads (cb ∷ cbs) = length cb.payload + payloads cbs

fresh_bytes_le : (cb : Cb) (s : Sock) → fresh_bytes cb s ≤ length cb.payload
fresh_bytes_le cb s = elim (Bool-cases (cb.seq == s.rcv_nxt || less_than_32b s.rcv_nxt cb.seq)) [
  | inl fresh ↦ rw fresh (omega arith)
  | inr old ↦ rw old (omega arith)
]

-- A socket that has received the first `k` bytes of a stream gets packets of the stream, in any order
-- and any number of times, for all of which there is room: every one is processed, and the receive
-- buffer has grown by exactly the bytes of the stream from `k` to some `k'`; no packet that waits could
-- be handed over.
pub recv_all-Advance :
    (base : ℕ) (stream : ℕ → ℕ) (k a : ℕ) (cbs : List Cb) (t : Tcp)
    → IsReceiving base stream k (t.socks a)
    → IsIdle (t.socks a)
    → All (λ cb. IsPiece base stream cb.seq cb.payload) cbs
    → stored (t.socks a) + payloads cbs < (t.socks a).rcv_buf.size
    → (k' : ℕ) × (t' : Tcp) × (recv_all a cbs t ≡ some t')
      × Advance base stream k k' (t.socks a) (t'.socks a)
      × IsIdle (t'.socks a)
recv_all-Advance base stream k a [] t g idle ps room =
    (k, t, refl, Advance-refl base stream k (t.socks a) g, idle)
recv_all-Advance base stream k a (cb ∷ cbs) t g idle ps room =
    let (j, t₁, e, is) = tcp_recv_data-Received base stream k a cb t g idle ps.0 (omega arith) in
    let le = fresh_bytes_le cb (t.socks a) in
    let (k', t', run, more, idle') =
      recv_all-Advance base stream j a cbs t₁ is.advance.receiving is.idle ps.1
        (rw is.size (omega (arith, is.all, le))) in
    (
      k',
      t',
      rw e run,
      Advance-trans base stream k j k' (t.socks a) (t₁.socks a) (t'.socks a) is.advance more,
      idle',
    )

-- The test for a number ahead, for places less than 2 ^ 31 apart
ahead :
    (base k o : ℕ) → k < o → o < k + 2 ^ 31 → less_than_32b (u32 (base + k)) (u32 (base + o)) ≡ true
unfolding less_than_32b difference
ahead base k o lt near = ground arith

fresh_bytes-piece :
    (base : ℕ) (k o : ℕ) (cb : Cb) (s : Sock)
    → cb.seq ≡ u32 (base + o)
    → s.rcv_nxt ≡ u32 (base + k)
    → k ≤ o
    → o < k + 2 ^ 31
    → fresh_bytes cb s ≡ length cb.payload
fresh_bytes-piece base k o cb s seq next le near = elim (Bool-cases (k == o)) [
  | inl same ↦
      let e : k ≡ o = (==_iff k o).0 same in
      let here : (cb.seq == s.rcv_nxt) ≡ true =
        (==_iff _ _).1 (seq ∙ ap (λ n. u32 (base + n)) (sym e) ∙ sym next) in
      rw here refl
  | inr other ↦
      let lt : k < o = ground arith in
      let fresh : less_than_32b s.rcv_nxt cb.seq ≡ true = rw (seq, next) (ahead base k o lt near) in
      elim (Bool-cases (cb.seq == s.rcv_nxt)) [
        | inl here ↦ rw here refl
        | inr apart ↦ rw (apart, fresh) refl
      ]
]

-- What a packet with the bytes of the stream from `o` on does to a socket that has the first `k`
pub record Arrived (base : ℕ) (stream : ℕ → ℕ) (k k' o : ℕ) (cb : Cb) (s s' : Sock) : Type 0 where
  pub advance : Advance base stream k k' s s'
  pub idle : IsIdle s'
  pub kept : k ≤ o → o < k + 2 ^ 31 → stored s' ≡ stored s + length cb.payload
  pub handed : o ≡ k → k + length cb.payload ≤ k'

-- A socket that has received the first `k` bytes of a stream, in any order of arrival, and has room for
-- a packet of it, whose bytes begin at `o`: `tcp_recv_data` succeeds; the receive buffer has grown by a
-- stretch of the stream that begins at `k`; the packets that wait are pieces of the stream still, and
-- none of them could be handed over; where `o` is from `k` on and less than 2 ^ 31 ahead of it, all bytes
-- of the packet are in the buffer or wait; and where it is `k`, they are handed over.
pub tcp_recv_data-Arrived :
    (base : ℕ) (stream : ℕ → ℕ) (k a : ℕ) (cb : Cb) (t : Tcp)
    → IsReceiving base stream k (t.socks a)
    → IsIdle (t.socks a)
    → (piece : IsPiece base stream cb.seq cb.payload)
    → stored (t.socks a) + length cb.payload < (t.socks a).rcv_buf.size
    → (k' : ℕ) × (t' : Tcp) × (tcp_recv_data a cb t ≡ some t')
      × Arrived base stream k k' piece.offset cb (t.socks a) (t'.socks a)
tcp_recv_data-Arrived base stream k a cb t g idle piece room =
    let (k', t', e, is) = tcp_recv_data-Received base stream k a cb t g idle piece room in
    (
      k',
      t',
      e,
      record {
        advance = is.advance;
        idle = is.idle;
        kept = λ le near. omega (
          arith,
          is.all,
          fresh_bytes-piece base k piece.offset cb (t.socks a) piece.numbered g.next le near,
        );
        handed = λ at.
            let here : (cb.seq == (t.socks a).rcv_nxt) ≡ true =
              (==_iff _ _).1 (piece.numbered ∙ ap (λ n. u32 (base + n)) at ∙ sym g.next) in
            let next : next_bytes cb (t.socks a) ≡ length cb.payload = rw here refl in
            omega (arith, next, is.progress);
      },
    )
