-- ===== src/Net/Ring/Tests.antt =====
-- Runs of the ring buffer of ring_buffer.h, and its theorems at a buffer of four bytes.
use ucas_coursework.Prelude.{◌≡◌, ◌≤◌, ◌<◌, ◌+◌, refl, some, List, [], ◌∷◌, arith, length}
use ucas_coursework.Net.Ring.{
  RingBuffer, read_bytes, alloc_ring_buffer, read_ring_buffer, write_ring_buffer,
}
use ucas_coursework.Net.Ring.Contents.{IsRing, contents}
use ucas_coursework.Net.Ring.Stream.{RingOp, put, get, run, queue_run, observe, run-observe}

-- Two bytes that go round the end.
abbrev round_end : RingBuffer
round_end = record { size = 4; head = 3; tail = 1; buf = λ a. a + 10 }

round_end-IsRing : IsRing round_end
round_end-IsRing = record { head_in = omega arith; tail_in = omega arith }

round_run : contents round_end ≡ 13 ∷ 10 ∷ []
unfolding contents read_bytes
round_run = refl

room : 1 + length (contents round_end) < 4
unfolding contents read_bytes
room = omega arith

no_room : 4 ≤ 2 + length (contents round_end)
unfolding contents read_bytes
no_room = omega arith

abbrev ops : List RingOp
ops = put (1 ∷ 2 ∷ 3 ∷ []) ∷ get 2 ∷ put (4 ∷ 5 ∷ []) ∷ get 9 ∷ []

stream_run : observe (run ops (alloc_ring_buffer 4)) ≡ some (1 ∷ 2 ∷ 3 ∷ 4 ∷ 5 ∷ [], [])
unfolding run write_ring_buffer read_ring_buffer contents alloc_ring_buffer
stream_run = refl

run-observe_example : observe (run ops round_end) ≡ queue_run 4 ops (contents round_end)
run-observe_example = run-observe ops round_end round_end-IsRing
