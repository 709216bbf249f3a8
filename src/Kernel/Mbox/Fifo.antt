-- ===== src/Kernel/Mbox/Fifo.antt =====
-- A message box hands its messages over in the order in which they were put in.
use ucas_coursework.Prelude.{
  ℕ, zero, suc, ◌+◌, ◌*◌, ◌%◌, ◌<◌, ◌≤◌, ◌≡◌, ◌≢◌, refl, ap, ◌∙◌, List, arith, ◌==◌, length, get_or,
  Bool-cases, inl, inr,
}
use ucas_coursework.Kernel.Mbox.{MessageBox, next_pos, put_message, slot_bytes, take_message}

-- The slot of the `j`-th message that waits.
abbrev pub slot : MessageBox → ℕ → ℕ
slot b j = (b.recv_pos + j) % 32

-- The `i`-th byte of that message.
abbrev pub message : MessageBox → ℕ → ℕ → ℕ
message b j i = b.msg_queue (32 * slot b j + i)

-- A box holds 32 messages or fewer, from the receiving position to the sending one.
pub record IsBox (b : MessageBox) : Type 0 where
  pub bounded : b.msg_num ≤ 32
  pub recv_in : b.recv_pos < 32
  pub send_at : b.send_pos ≡ (b.recv_pos + b.msg_num) % 32

-- What putting a message in makes of a box.
pub record Put (msg : List ℕ) (b b' : MessageBox) : Type 0 where
  pub kept : IsBox b'
  pub counted : b'.msg_num ≡ b.msg_num + 1
  pub others : (j i : ℕ) → j < b.msg_num → i < 32 → message b' j i ≡ message b j i
  pub last : (i : ℕ) → i < length msg → message b' b.msg_num i ≡ get_or msg i 0

-- What taking a message out does: `n` of its bytes, and the others are one further in front.
pub record Taken (n : ℕ) (b : MessageBox) (bytes : List ℕ) (b' : MessageBox) : Type 0 where
  pub kept : IsBox b'
  pub counted : b'.msg_num + 1 ≡ b.msg_num
  pub others : (j i : ℕ) → j < b'.msg_num → message b' j i ≡ message b (j + 1) i
  pub size : length bytes ≡ n
  pub first : (i : ℕ) → i < n → get_or bytes i 0 ≡ message b 0 i

length-slot_bytes : (s : ℕ → ℕ) (i n : ℕ) → length (slot_bytes s i n) ≡ n
unfolding slot_bytes
length-slot_bytes s i zero = refl
length-slot_bytes s i (suc n) = ap suc (length-slot_bytes s (i + 1) n)

get_or-slot_bytes : (s : ℕ → ℕ) (i n j : ℕ) → j < n → get_or (slot_bytes s i n) j 0 ≡ s (i + j)
unfolding slot_bytes
get_or-slot_bytes s i zero j lt = absurd (omega arith)
get_or-slot_bytes s i (suc n) zero lt = ap s (omega arith)
get_or-slot_bytes s i (suc n) (suc j) lt =
    get_or-slot_bytes s (i + 1) n j (omega arith) ∙ ap s (omega arith)

next_pos_lem : (pos : ℕ) → pos < 32 → next_pos pos ≡ (pos + 1) % 32
next_pos_lem pos lt = elim (Bool-cases (pos == 31)) [
  | inl end ↦ rw end (ground arith)
  | inr before ↦ rw before (ground arith)
]

-- In a box that is not full, a message of at most 32 bytes that `do_mbox_send` copies in, under the lock,
-- becomes the last of those that wait, and none of them changes.
pub put_message-Put :
    (b : MessageBox) (msg : List ℕ)
    → IsBox b
    → b.msg_num < 32
    → length msg ≤ 32
    → Put msg b (put_message msg b)
unfolding put_message
put_message-Put b msg v room short =
    let next = next_pos_lem b.send_pos (omega (arith, v.send_at)) in
    record {
      kept = record {
        bounded = omega arith;
        recv_in = v.recv_in;
        send_at = next ∙ omega (arith, v.send_at);
      };
      counted = refl;
      others = λ j i lt small.
          let ne : slot b j ≢ b.send_pos = λ e. absurd (omega (arith, v.send_at, v.recv_in, e)) in
          ground (arith, ne);
      last = λ i lt.
          let at : slot b b.msg_num ≡ b.send_pos = omega (arith, v.send_at) in ground (arith, at);
    }

-- From a box that is not empty, `do_mbox_recv` with at most 32 bytes takes, under the lock, the bytes of
-- the first message that waits, and the others keep their order.
pub take_message-Taken :
    (b : MessageBox) (n : ℕ)
    → IsBox b
    → 0 < b.msg_num
    → n ≤ 32
    → Taken n b (take_message n b).0 (take_message n b).1
unfolding take_message
take_message-Taken b n v some_left short =
    let next = next_pos_lem b.recv_pos v.recv_in in
    record {
      kept = record {
        bounded = omega (arith, v.bounded);
        recv_in = rw next (omega arith);
        send_at = v.send_at ∙ rw next (omega (arith, v.recv_in));
      };
      counted = omega arith;
      others = λ j i lt. ap (λ p. b.msg_queue (32 * p + i)) (rw next (omega (arith, v.recv_in)));
      size = length-slot_bytes b.msg_queue (32 * b.recv_pos) n;
      first = λ i lt.
          get_or-slot_bytes b.msg_queue (32 * b.recv_pos) n i lt
          ∙ ap b.msg_queue (omega (arith, v.recv_in));
    }
