-- ===== src/Net/Ring/Stream.antt =====
-- The ring buffer behind its two operations cannot be told from a queue of bytes of bounded length.
use ucas_coursework.Prelude.{
  ℕ, ◌+◌, ◌≡◌, refl, false, Option, none, some, List, [], ◌∷◌, ◌++◌, arith, ltb, ◌&&◌,
  if◌then◌else◌, length, take, drop, inl, inr, Bool-cases, on_some,
}
use ucas_coursework.Net.Ring.{RingBuffer, read_ring_buffer, write_ring_buffer}
use ucas_coursework.Net.Ring.Contents.{IsRing, contents}
use ucas_coursework.Net.Ring.Fifo.{write_ring_buffer_lem, write_ring_buffer-none}
use ucas_coursework.Net.Ring.Read.{read_ring_buffer_lem}

-- What the users of a ring buffer do with it.
pub data RingOp : Type 0 where
  put : List ℕ → RingOp
  get : ℕ → RingOp

-- The bytes in front of those that the rest of a run hands over.
abbrev pub prepend {ℓ} : {A : Type ℓ} → List ℕ → Option (List ℕ × A) → Option (List ℕ × A)
prepend bytes none = none
prepend bytes (some (more, a)) = some (bytes ++ more, a)

-- A run of the ring buffer: all the bytes that were read, and the buffer left.
unfoldable pub run : List RingOp → RingBuffer → Option (List ℕ × RingBuffer)
run [] r = some ([], r)
run (put bytes ∷ ops) r = on_some (run ops) (write_ring_buffer bytes r)
run (get n ∷ ops) r = let (bytes, r') = read_ring_buffer n r in prepend bytes (run ops r')

-- The same operations on a queue of less than `size` bytes.
unfoldable pub queue_run : ℕ → List RingOp → List ℕ → Option (List ℕ × List ℕ)
queue_run size [] q = some ([], q)
queue_run size (put bytes ∷ ops) q =
    let rest = queue_run size ops (q ++ bytes) in
    if ltb 0 (length bytes) && ltb (length bytes + length q) size then rest else none
queue_run size (get n ∷ ops) q = prepend (take n q) (queue_run size ops (drop n q))

abbrev pub observe : Option (List ℕ × RingBuffer) → Option (List ℕ × List ℕ)
observe none = none
observe (some (bytes, r)) = some (bytes, contents r)

observe-prepend :
    (bytes : List ℕ) (o : Option (List ℕ × RingBuffer))
    → observe (prepend bytes o) ≡ prepend bytes (observe o)
observe-prepend bytes none = refl
observe-prepend bytes (some p) = refl

refused :
    (r : RingBuffer) (bytes : List ℕ)
    → IsRing r
    → (ltb 0 (length bytes) && ltb (length bytes + length (contents r)) r.size) ≡ false
    → write_ring_buffer bytes r ≡ none
refused r bytes v full = elim (Bool-cases (ltb 0 (length bytes))) [
  | inl some_bytes ↦ (write_ring_buffer-none r bytes v (ground arith)).0
  | inr no_bytes ↦ unfold write_ring_buffer in rw no_bytes
]

-- Every sequence of writes and reads hands over the same bytes, leaves the same bytes, or fails an
-- assertion, at a ring buffer of `size` and at the queue that takes less than `size` bytes.
pub run-observe :
    (ops : List RingOp) (r : RingBuffer)
    → IsRing r
    → observe (run ops r) ≡ queue_run r.size ops (contents r)
unfolding run queue_run
run-observe [] r v = refl
run-observe (get n ∷ ops) r v =
    let (r', read, v', left, size) = read_ring_buffer_lem r n v in
    rw (read, observe-prepend (take n (contents r)) (run ops r'), run-observe ops r' v', left, size)
run-observe (put bytes ∷ ops) r v =
    elim (Bool-cases (ltb 0 (length bytes) && ltb (length bytes + length (contents r)) r.size)) [
      | inl fits ↦
          let (r', written, v', held, size) =
            write_ring_buffer_lem r bytes v (ground arith) (ground arith) in
          rw (fits, written, run-observe ops r' v', held, size)
      | inr full ↦ rw (full, refused r bytes v full)
    ]
