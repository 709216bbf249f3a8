-- ===== src/Kernel/Mbox.antt =====
-- mbox.c of Operating System/p4-Synchronization-Primitives-IPC: bounded boxes of messages, on the state
-- of the scheduler. A task that blocks in do_mbox_send or do_mbox_recv goes on with `send_rest` or
-- `recv_rest` when it runs again; one that has to wait for the lock is not followed further. Strings
-- are lists of bytes; a use of an array past its end is `none`.
pub mod Fifo
mod Tests
use ucas_coursework.Prelude.{
  ℕ, zero, suc, ◌+◌, ◌-◌, ◌*◌, ◌%◌, ◌^◌, Bool, true, false, Option, none, some, List, [], ◌∷◌, ◌++◌,
  ◌==◌, ltb, leb, ◌&&◌, if◌then◌else◌, update, length, drop, get_or, is_nil,
}
use ucas_coursework.Kernel.Sched.{return, Kernel, block}
use ucas_coursework.Kernel.Sync.{
  Ret, value, switched, lock_init, clear_queue, lock_acquire, lock_release, unblock_one,
}

-- `MessageBox`: the 33 bytes of its name, the bytes of its 32 message slots, of 32 bytes each and one
-- behind the other, and the addresses of its lock and of its two wait queues.
pub record MessageBox : Type 0 where
  pub name : List ℕ
  pub msg_queue : ℕ → ℕ
  pub user_num : ℕ
  pub msg_num : ℕ
  pub l : ℕ
  pub send_wait_queue : ℕ
  pub recv_wait_queue : ℕ
  pub send_pos : ℕ
  pub recv_pos : ℕ

-- The kernel with its boxes, and `mbox_use` of each task.
pub record Mail : Type 0 where
  pub kernel : Kernel
  pub boxes : ℕ → MessageBox
  pub mbox_use : ℕ → ℕ → ℕ

abbrev pub max_mboxen : ℕ
max_mboxen = 32

abbrev pub max_mbox_length : ℕ
max_mbox_length = 32

abbrev pub max_message_length : ℕ
max_message_length = 32

-- `name[0] = '\0'`
abbrev pub unnamed : List ℕ → List ℕ
unnamed [] = []
unnamed (b ∷ name) = 0 ∷ name

abbrev pub empty_box : MessageBox → MessageBox
empty_box b = record b {
  name = unnamed b.name;
  user_num = 0;
  msg_num = 0;
  send_pos = 0;
  recv_pos = 0;
}

-- The part that init_mbox and do_mbox_close share.
unfoldable pub reset_box : ℕ → Mail → Mail
unfolding lock_init
reset_box i m =
    let b : MessageBox = m.boxes i in
    record m {
      kernel =
          clear_queue b.recv_wait_queue (clear_queue b.send_wait_queue (lock_init b.l m.kernel));
      boxes = update m.boxes i (empty_box b);
    }

unfoldable pub init_loop : ℕ → ℕ → Mail → Mail
unfolding reset_box
init_loop i zero m = m
init_loop i (suc n) m = init_loop (i + 1) n (reset_box i m)

unfoldable pub init_mbox : Mail → Mail
unfolding init_loop
init_mbox m = init_loop 0 max_mboxen m

-- The string that an array of bytes holds.
unfoldable pub c_string : List ℕ → List ℕ
c_string [] = []
c_string (b ∷ bytes) = let rest = c_string bytes in if b == 0 then [] else b ∷ rest

unfoldable pub same_string : List ℕ → List ℕ → Bool
same_string [] [] = true
same_string [] (b ∷ bs) = false
same_string (a ∷ s) [] = false
same_string (a ∷ s) (b ∷ bs) = a == b && same_string s bs

-- The first box from `i` on, of `n`, for which the test holds.
unfoldable pub find_box : (MessageBox → Bool) → (ℕ → MessageBox) → ℕ → ℕ → Option ℕ
find_box test boxes i zero = none
find_box test boxes i (suc n) =
    let rest = find_box test boxes (i + 1) n in if test (boxes i) then some i else rest

-- `if (mbox_use[i] = 0) user_num++` assigns 0, so the branch is never taken; then 1 is assigned.
abbrev pub use_box : ℕ → Mail → Mail
use_box i m = record m {
  mbox_use = update m.mbox_use m.kernel.current (update (m.mbox_use m.kernel.current) i 1);
}

-- `bcopy(name, box name, strlen(name))`, which copies no terminator
abbrev pub name_box : ℕ → List ℕ → Mail → Mail
name_box i name m = record m {
  boxes =
      update m.boxes i (record (m.boxes i) { name = name ++ drop (length name) (m.boxes i).name });
}

abbrev pub open_new : List ℕ → Mail → Option ℕ → Option (ℕ × Mail)
open_new name m none = none
open_new name m (some i) = some (i, use_box i (name_box i name m))

abbrev pub open_found : List ℕ → Mail → Option ℕ → Option ℕ → Option (ℕ × Mail)
open_found name m (some i) free = some (i, use_box i m)
open_found name m none free = open_new name m free

-- `none` where no box is free: the source returns nothing there.
unfoldable pub do_mbox_open : List ℕ → Mail → Option (ℕ × Mail)
unfolding c_string same_string find_box
do_mbox_open name m =
    open_found name m (find_box (λ b. same_string name (c_string b.name)) m.boxes 0 max_mboxen)
      (find_box (λ b. is_nil (c_string b.name)) m.boxes 0 max_mboxen)

-- `user_num--`, of 32 bits
abbrev pub leave_box : ℕ → Mail → Mail
leave_box i m = record m {
  boxes =
      update m.boxes i
        (record (m.boxes i) { user_num = ((m.boxes i).user_num + 2 ^ 32 - 1) % 2 ^ 32 });
  mbox_use = update m.mbox_use m.kernel.current (update (m.mbox_use m.kernel.current) i 0);
}

unfoldable pub do_mbox_close : ℕ → Mail → Mail
unfolding reset_box
do_mbox_close i m =
    let m' : Mail = leave_box i m in if (m'.boxes i).user_num == 0 then reset_box i m' else m'

unfoldable pub do_mbox_is_full : MessageBox → Bool
do_mbox_is_full b = b.msg_num == max_mbox_length

unfoldable pub do_mbox_is_empty : MessageBox → Bool
do_mbox_is_empty b = b.msg_num == 0

abbrev pub next_pos : ℕ → ℕ
next_pos pos = if pos == max_mbox_length - 1 then 0 else pos + 1

-- The bytes of the message come into the array from the slot at `send_pos` on, whatever their number:
-- more than 32 of them run into the next slot. The rest of the array stays.
unfoldable pub put_message : List ℕ → MessageBox → MessageBox
put_message msg b = record b {
  msg_queue = λ a.
      if leb (max_message_length * b.send_pos) a
        && ltb a (max_message_length * b.send_pos + length msg)
      then get_or msg (a - max_message_length * b.send_pos) 0
      else b.msg_queue a;
  send_pos = next_pos b.send_pos;
  msg_num = b.msg_num + 1;
}

-- The bytes from the `i`-th on.
unfoldable pub slot_bytes : (ℕ → ℕ) → ℕ → ℕ → List ℕ
slot_bytes slot i zero = []
slot_bytes slot i (suc n) = slot i ∷ slot_bytes slot (i + 1) n

unfoldable pub take_message : ℕ → MessageBox → List ℕ × MessageBox
unfolding slot_bytes
take_message nbytes b = (
  slot_bytes b.msg_queue (max_message_length * b.recv_pos) nbytes,
  record b { recv_pos = next_pos b.recv_pos; msg_num = b.msg_num - 1 },
)

-- The box is changed, the lock released, and the first task of the other queue woken.
abbrev pub finish_with : ℕ → MessageBox → ℕ → Mail → Mail
finish_with i b queue m = record m {
  kernel = (unblock_one queue (lock_release b.l m.kernel)).1;
  boxes = update m.boxes i b;
}

-- `n` bytes from a slot on stay in the array of slots.
abbrev pub fits : ℕ → ℕ → Bool
fits pos n = leb (max_message_length * pos + n) (max_message_length * max_mbox_length)

-- What a call ends in, with the bytes that it received.
abbrev pub Delivery : Type 0
Delivery = Option (Ret × List ℕ × Mail)

abbrev pub send_locked : ℕ → List ℕ → Mail → Option (Ret × Kernel) → Delivery
send_locked i msg m none = none
send_locked i msg m (some (switched, k)) = some (switched, [], record m { kernel = k })
send_locked i msg m (some (value v, k)) =
    let b : MessageBox = m.boxes i in
    if fits b.send_pos (length msg)
    then some
        (value 0, [], finish_with i (put_message msg b) b.recv_wait_queue (record m { kernel = k }))
    else none

unfoldable pub send_rest : ℕ → List ℕ → ℕ → List ℕ → Mail → Delivery
unfolding lock_acquire put_message lock_release unblock_one
send_rest fuel ticks i msg m = send_locked i msg m (lock_acquire fuel ticks (m.boxes i).l m.kernel)

abbrev pub blocked_in : Mail → Option Kernel → Delivery
blocked_in m none = none
blocked_in m (some k) = some (switched, [], record m { kernel = k })

unfoldable pub do_mbox_send : ℕ → List ℕ → ℕ → List ℕ → Mail → Delivery
unfolding do_mbox_is_full send_rest block
do_mbox_send fuel ticks i msg m =
    if do_mbox_is_full (m.boxes i)
    then blocked_in m (block ticks (m.boxes i).send_wait_queue return m.kernel)
    else send_rest fuel ticks i msg m

abbrev pub recv_locked : ℕ → ℕ → Mail → Option (Ret × Kernel) → Delivery
recv_locked i nbytes m none = none
recv_locked i nbytes m (some (switched, k)) = some (switched, [], record m { kernel = k })
recv_locked i nbytes m (some (value v, k)) =
    let b : MessageBox = m.boxes i in
    let (bytes, b') = take_message nbytes b in
    if fits b.recv_pos nbytes
    then some (value 0, bytes, finish_with i b' b.send_wait_queue (record m { kernel = k }))
    else none

unfoldable pub recv_rest : ℕ → List ℕ → ℕ → ℕ → Mail → Delivery
unfolding lock_acquire take_message lock_release unblock_one
recv_rest fuel ticks i nbytes m =
    recv_locked i nbytes m (lock_acquire fuel ticks (m.boxes i).l m.kernel)

unfoldable pub do_mbox_recv : ℕ → List ℕ → ℕ → ℕ → Mail → Delivery
unfolding do_mbox_is_empty recv_rest block
do_mbox_recv fuel ticks i nbytes m =
    if do_mbox_is_empty (m.boxes i)
    then blocked_in m (block ticks (m.boxes i).recv_wait_queue return m.kernel)
    else recv_rest fuel ticks i nbytes m
