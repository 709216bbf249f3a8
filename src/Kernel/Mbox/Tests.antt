-- ===== src/Kernel/Mbox/Tests.antt =====
-- Runs of the message boxes of mbox.c, and their theorems, at a box whose messages go round the end.
use ucas_coursework.Prelude.{◌≡◌, refl, true, [], ◌∷◌, arith, replicate}
use ucas_coursework.Kernel.Mbox.{MessageBox, put_message, take_message, c_string, same_string}
use ucas_coursework.Kernel.Mbox.Fifo.{IsBox, Put, Taken, put_message-Put, take_message-Taken}

abbrev box : MessageBox
box = record {
  name = replicate 33 0;
  msg_queue = λ a. a;
  user_num = 0;
  msg_num = 2;
  l = 100;
  send_wait_queue = 101;
  recv_wait_queue = 102;
  send_pos = 1;
  recv_pos = 31;
}

box-IsBox : IsBox box
box-IsBox = record { bounded = omega arith; recv_in = omega arith; send_at = refl }

take_run : (take_message 3 box).0 ≡ 992 ∷ 993 ∷ 994 ∷ []
unfolding take_message
take_run = refl

string_run : same_string (97 ∷ []) (c_string (97 ∷ 0 ∷ 98 ∷ [])) ≡ true
unfolding same_string c_string
string_run = refl

put_message-Put_example : Put (7 ∷ 8 ∷ []) box (put_message (7 ∷ 8 ∷ []) box)
put_message-Put_example = put_message-Put box (7 ∷ 8 ∷ []) box-IsBox (omega arith) (omega arith)

take_message-Taken_example : Taken 3 box (take_message 3 box).0 (take_message 3 box).1
take_message-Taken_example = take_message-Taken box 3 box-IsBox (omega arith) (omega arith)
