-- ===== src/Net/Ring.antt =====
-- include/ring_buffer.h of Computer Networks/pr11-网络传输机制实验三: the receive buffer of a TCP socket.
-- A buffer of bytes is a function of the address; `memcpy` copies a list of bytes from or to it. The
-- mutex of the structure is taken by the callers and not modelled.
pub mod Bytes
pub mod Contents
pub mod Fifo
pub mod Read
pub mod Stream
mod Tests
use ucas_coursework.Prelude.{
  ℕ, zero, suc, ◌+◌, ◌-◌, ◌%◌, ◌<◌, Bool, true, false, Option, none, some, List, [], ◌∷◌, ◌++◌,
  ◌==◌, ltb, leb, ◌&&◌, if◌then◌else◌, update, length, take, drop, min,
}

-- `struct ring_buffer`. The positions and sizes are not negative in the source.
pub record RingBuffer : Type 0 where
  pub size : ℕ
  pub head : ℕ
  pub tail : ℕ
  pub buf : ℕ → ℕ

-- The `n` bytes at `a`: `memcpy(_, buf + a, n)`.
unfoldable pub read_bytes : (ℕ → ℕ) → ℕ → ℕ → List ℕ
read_bytes buf a zero = []
read_bytes buf a (suc n) = buf a ∷ read_bytes buf (a + 1) n

-- `memcpy(buf + a, bytes, length of bytes)`
unfoldable pub write_bytes : ℕ → List ℕ → (ℕ → ℕ) → ℕ → ℕ
write_bytes a [] buf = buf
write_bytes a (b ∷ bytes) buf = write_bytes (a + 1) bytes (update buf a b)

unfoldable pub alloc_ring_buffer : ℕ → RingBuffer
alloc_ring_buffer size = record { size = size; head = 0; tail = 0; buf = λ a. 0 }

-- The sum is that of the source in another order, `tail - head` being negative where the data goes
-- round the end.
unfoldable pub ring_buffer_used : RingBuffer → ℕ
ring_buffer_used rbuf = (rbuf.tail + rbuf.size - rbuf.head) % rbuf.size

unfoldable pub ring_buffer_free : RingBuffer → ℕ
unfolding ring_buffer_used
ring_buffer_free rbuf = rbuf.size - ring_buffer_used rbuf - 1

unfoldable pub ring_buffer_empty : RingBuffer → Bool
unfolding ring_buffer_used
ring_buffer_empty rbuf = ring_buffer_used rbuf == 0

unfoldable pub ring_buffer_full : RingBuffer → Bool
unfolding ring_buffer_free
ring_buffer_full rbuf = ring_buffer_free rbuf == 0

-- The bytes that it copies to the caller, in one piece or two.
unfoldable pub copy_out : ℕ → RingBuffer → List ℕ
unfolding read_bytes
copy_out len rbuf =
    let right : ℕ = rbuf.size - rbuf.head in
    if ltb rbuf.size (rbuf.head + len)
    then read_bytes rbuf.buf rbuf.head right ++ read_bytes rbuf.buf 0 (len - right)
    else read_bytes rbuf.buf rbuf.head len

-- The first part of the result is what the caller's buffer receives; the return value is its length.
unfoldable pub read_ring_buffer : ℕ → RingBuffer → List ℕ × RingBuffer
unfolding ring_buffer_used copy_out
read_ring_buffer size rbuf =
    let len : ℕ = min (ring_buffer_used rbuf) size in
    if ltb 0 len
    then (copy_out len rbuf, record rbuf { head = (rbuf.head + len) % rbuf.size })
    else ([], rbuf)

-- The bytes of the caller are copied in, in one piece or two.
unfoldable pub copy_in : List ℕ → RingBuffer → ℕ → ℕ
unfolding write_bytes
copy_in bytes rbuf =
    let right : ℕ = rbuf.size - rbuf.tail in
    if ltb rbuf.size (rbuf.tail + length bytes)
    then write_bytes 0 (drop right bytes) (write_bytes rbuf.tail (take right bytes) rbuf.buf)
    else write_bytes rbuf.tail bytes rbuf.buf

-- `bytes` are the `size` bytes at the caller's pointer; `none` means that the assertion fails.
unfoldable pub write_ring_buffer : List ℕ → RingBuffer → Option RingBuffer
unfolding ring_buffer_free copy_in
write_ring_buffer bytes rbuf =
    if ltb 0 (length bytes) && leb (length bytes) (ring_buffer_free rbuf)
    then some
        (record rbuf { buf = copy_in bytes rbuf; tail = (rbuf.tail + length bytes) % rbuf.size })
    else none
