-- ===== src/Net/Tcp/Delivery.antt =====
-- The receiving side of tcp_in.c of Computer Networks/pr11-网络传输机制实验三 hands over the bytes of the
-- sender's stream in order, whatever the order in which their packets arrive.
use ucas_coursework.Prelude.{
  ℕ, zero, suc, ◌+◌, ◌-◌, ◌^◌, ◌<◌, ◌≤◌, ◌≡◌, refl, sym, ap, ap₂, ◌∙◌, some_inj, Option, none, some,
  List, [], ◌∷◌, ◌++◌, append_assoc, append-nil, arith, ◌==◌, length, All, Bool-cases, Option-cases,
  inl, inr, length-append,
}
use native.Mathlib.Nat.{add-zero, sub_self}
use ucas_coursework.Net.Ring.{read_bytes}
use ucas_coursework.Net.Ring.Bytes.{read_bytes_add, length-read_bytes}
use ucas_coursework.Net.Ring.Contents.{IsRing, contents}
use ucas_coursework.Net.Ring.Fifo.{write_ring_buffer_lem}
use ucas_coursework.Net.Tcp.{RecvBuffer, Sock, u32}
use ucas_coursework.Net.Tcp.Input.{deliver, take_next, drain}

-- The bytes of a packet that are still to be read, all together.
unfoldable pub total : List RecvBuffer → ℕ
total [] = 0
total (b ∷ bs) = length b.payload + total bs

-- The bytes in the buffer and in the packets that wait.
abbrev pub stored : Sock → ℕ
stored s = total s.recv_list + length (contents s.rcv_buf)

-- Nothing is left that could be handed over.
abbrev pub IsIdle : Sock → Type 0
IsIdle s = take_next s.rcv_nxt s.recv_list ≡ none

take_next-nil : (end : ℕ) (bs : List RecvBuffer) → length bs ≤ 0 → take_next end bs ≡ none
unfolding take_next
take_next-nil end [] h = refl
take_next-nil end (b ∷ bs) h = absurd (omega arith)

module _ (base : ℕ) (stream : ℕ → ℕ) where
  -- The packet holds the bytes of the stream from `offset` on, under the numbers that begin with `base`.
  pub record IsPiece (seq : ℕ) (payload : List ℕ) : Type 0 where
    pub offset : ℕ
    pub inside : offset + length payload < 2 ^ 32
    pub numbered : seq ≡ u32 (base + offset)
    pub taken : payload ≡ read_bytes stream offset (length payload)

  abbrev pub IsBufferPiece : RecvBuffer → Type 0
  IsBufferPiece b = IsPiece b.seq b.payload

  -- The socket has received the first `k` bytes of the stream, and pieces of the rest.
  pub record IsReceiving (k : ℕ) (s : Sock) : Type 0 where
    pub next : s.rcv_nxt ≡ u32 (base + k)
    pub inside : k < 2 ^ 32
    pub ring : IsRing s.rcv_buf
    pub pieces : All IsBufferPiece s.recv_list

  -- The socket was handed the bytes of the stream from `k` to `k'`, and no others.
  pub record Advance (k k' : ℕ) (s s' : Sock) : Type 0 where
    pub forward : k ≤ k'
    pub receiving : IsReceiving k' s'
    pub held : contents s'.rcv_buf ≡ contents s.rcv_buf ++ read_bytes stream k (k' - k)

  -- Two places less than 2 ^ 32 with the same number are one place.
  same_place : {k o : ℕ} → k < 2 ^ 32 → o < 2 ^ 32 → u32 (base + o) ≡ u32 (base + k) → o ≡ k
  same_place hk ho e = omega arith

  take_next-pieces :
      (end : ℕ) (bs : List RecvBuffer)
      → All IsBufferPiece bs
      → (payload : List ℕ) (rest : List RecvBuffer) → take_next end bs ≡ some (payload, rest)
      → IsPiece end payload
        × All IsBufferPiece rest
        × (total bs ≡ length payload + total rest)
        × (length bs ≡ suc (length rest))
  unfolding take_next total
  take_next-pieces end [] h payload rest e = cc
  take_next-pieces end (b ∷ bs) h payload rest e = elim (Bool-cases (b.seq == end)) [
    | inl here ↦
        let found = some_inj (rw here at e) in
        let at_end : b.seq ≡ end = ground arith in
        let ep : b.payload ≡ payload = ap (λ p. p.0) found in
        let er : bs ≡ rest = ap (λ p. p.1) found in
        rw (sym ep, sym er, sym at_end) (h.0, h.1, refl, refl)
    | inr other ↦ elim (Option-cases (take_next end bs)) [
      | inl stop ↦
          let wrong : ◌≡◌ {A = Option (List ℕ × List RecvBuffer)} none (some (payload, rest)) =
            rw (other, stop) at e in
          cc
      | inr ((p, r), e') ↦
          let found = some_inj (rw (other, e') at e) in
          let (piece, pieces, sum, size) = take_next-pieces end bs h.1 p r e' in
          let ep : p ≡ payload = ap (λ q. q.0) found in
          let er : b ∷ r ≡ rest = ap (λ q. q.1) found in
          rw (sym ep, sym er) (piece, (h.0, pieces), omega (arith, sum), omega (arith, size))
    ]
  ]

  -- The next bytes of the stream are delivered.
  pub deliver-next :
      (k : ℕ) (s : Sock) (payload : List ℕ)
      → IsReceiving k s
      → IsPiece s.rcv_nxt payload
      → length payload + length (contents s.rcv_buf) < s.rcv_buf.size
      → (s' : Sock) × (deliver payload s ≡ some s')
        × Advance k (k + length payload) s s'
        × (s'.recv_list ≡ s.recv_list)
        × (s'.rcv_buf.size ≡ s.rcv_buf.size)
  unfolding deliver read_bytes
  deliver-next k s [] g p fits = (
    s,
    refl,
    record {
      forward = omega arith;
      receiving = rw (add-zero k) g;
      held = rw (add-zero k, sub_self k, append-nil) refl;
    },
    refl,
    refl,
  )
  deliver-next k s (b ∷ bytes) g p fits =
      let o : p.offset ≡ k =
        same_place g.inside (omega (arith, p.inside)) (sym p.numbered ∙ g.next) in
      let count : suc (length bytes) ≡ k + suc (length bytes) - k = omega arith in
      let (r, written, ring, held, size) =
        write_ring_buffer_lem s.rcv_buf (b ∷ bytes) g.ring (omega arith) fits in
      (
        record s { rcv_buf = r; rcv_nxt = u32 (s.rcv_nxt + length (b ∷ bytes)) },
        rw written refl,
        record {
          forward = omega arith;
          receiving = record {
            next = omega (arith, g.next);
            inside = omega (arith, p.inside);
            ring = ring;
            pieces = g.pieces;
          };
          held =
              rw held
                (ap (λ l. contents s.rcv_buf ++ l) (p.taken ∙ ap₂ (read_bytes stream) o count));
        },
        refl,
        size,
      )

  pub Advance-refl : (k : ℕ) (s : Sock) → IsReceiving k s → Advance k k s s
  unfolding read_bytes
  Advance-refl k s g = record {
    forward = omega arith;
    receiving = g;
    held = rw (sub_self k, append-nil) refl;
  }

  pub Advance-trans :
      (i j k : ℕ) (s s' s'' : Sock) → Advance i j s s' → Advance j k s' s'' → Advance i k s s''
  Advance-trans i j k s s' s'' a b =
      let there : i + (j - i) ≡ j = omega (arith, a.forward) in
      let both : j - i + (k - j) ≡ k - i = omega (arith, a.forward, b.forward) in
      let joined : read_bytes stream i (j - i) ++ read_bytes stream j (k - j)
          ≡ read_bytes stream i (k - i) =
        sym (
          sym (ap (read_bytes stream i) both)
          ∙ read_bytes_add stream i (j - i) (k - j)
          ∙ ap (λ l. read_bytes stream i (j - i) ++ read_bytes stream l (k - j)) there) in
      record {
        forward = omega (arith, a.forward, b.forward);
        receiving = b.receiving;
        held =
            b.held
            ∙ ap (λ l. l ++ read_bytes stream j (k - j)) a.held
            ∙ append_assoc (contents s.rcv_buf) (read_bytes stream i (j - i))
                (read_bytes stream j (k - j))
            ∙ ap (λ l. contents s.rcv_buf ++ l) joined;
      }

  abbrev pub Done : ℕ → Sock → Option Sock → Type 0
  Done k s o =
      (k' : ℕ) × (s' : Sock) × (o ≡ some s')
      × Advance k k' s s'
      × IsIdle s'
      × (stored s' ≡ stored s)
      × (s'.rcv_buf.size ≡ s.rcv_buf.size)

  pub length-held :
      (k k' : ℕ) (s s' : Sock)
      → Advance k k' s s'
      → length (contents s'.rcv_buf) ≡ length (contents s.rcv_buf) + (k' - k)
  length-held k k' s s' a = rw a.held (
      length-append (contents s.rcv_buf) (read_bytes stream k (k' - k))
      ∙ ap (λ n. length (contents s.rcv_buf) + n) (length-read_bytes stream k (k' - k)))

  -- The loop, with as many turns as there are packets, comes to its end.
  pub drain-Done :
      (n k : ℕ) (s : Sock)
      → IsReceiving k s
      → stored s < s.rcv_buf.size
      → length s.recv_list ≤ n
      → Done k s (drain n s)
  unfolding drain
  drain-Done zero k s g room le =
      (k, s, refl, Advance-refl k s g, take_next-nil s.rcv_nxt s.recv_list le, refl, refl)
  drain-Done (suc n) k s g room le = elim (Option-cases (take_next s.rcv_nxt s.recv_list)) [
    | inl idle ↦ (k, s, rw (idle, drain) refl, Advance-refl k s g, idle, refl, refl)
    | inr ((payload, rest), e) ↦
        let (piece, pieces, sum, size) =
          take_next-pieces s.rcv_nxt s.recv_list g.pieces payload rest e in
        let g' : IsReceiving k (record s { recv_list = rest }) = record {
          next = g.next;
          inside = g.inside;
          ring = g.ring;
          pieces = pieces;
        } in
        let (s₁, delivered, moved, list, same) =
          deliver-next k (record s { recv_list = rest }) payload g' piece (omega (arith, sum)) in
        let longer = length-held k (k + length payload) (record s { recv_list = rest }) s₁ moved in
        let all : stored s₁ ≡ stored s = rw list (omega (arith, sum, longer)) in
        let room₁ : stored s₁ < s₁.rcv_buf.size = rw (all, same) room in
        let short : length s₁.recv_list ≤ n = rw list (omega (arith, size)) in
        let (k', s', loop, rest_moved, idle, all', same') =
          drain-Done n (k + length payload) s₁ moved.receiving room₁ short in
        let first : Advance k (k + length payload) s s₁ = record {
          forward = moved.forward;
          receiving = moved.receiving;
          held = moved.held;
        } in
        (
          k',
          s',
          rw (e, delivered, drain) loop,
          Advance-trans k (k + length payload) k' s s₁ s' first rest_moved,
          idle,
          all' ∙ all,
          same' ∙ same,
        )
  ]
