-- ===== src/Net/Ring/Fifo.antt =====
-- Writing to the ring buffer puts bytes at the back of a queue of bounded length.
use ucas_coursework.Prelude.{
  ℕ, ◌+◌, ◌-◌, ◌%◌, ◌<◌, ◌≤◌, ◌≡◌, refl, ap, ◌∙◌, true, false, none, some, List, ◌++◌, arith, ◌==◌,
  ltb, leb, ◌&&◌, length, take, drop, inl, inr, Bool-cases, append_assoc, append-nil, length-take,
  length-drop, take-append-drop,
}
use native.Mathlib.Nat.{mod-eq_of_lt, mod-eq-sub-mod, mod_self, zero-add, mod-lt}
use ucas_coursework.Net.Ring.{
  RingBuffer, read_bytes, write_bytes, ring_buffer_used, ring_buffer_free, copy_in,
  write_ring_buffer,
}
use ucas_coursework.Net.Ring.Bytes.{read_bytes_add, read_bytes-write_self, read_bytes-write_apart}
use ucas_coursework.Net.Ring.Contents.{
  IsRing, contents, used-wrapped, used-straight, length-contents,
}

module _ (r : RingBuffer) (v : IsRing r) where
  module _ (bytes : List ℕ) where
    abbrev written : RingBuffer
    written = record r { buf = copy_in bytes r; tail = (r.tail + length bytes) % r.size }

    write-wrapped :
        r.tail < r.head → r.tail + length bytes < r.head → contents written ≡ contents r ++ bytes
    unfolding contents copy_in
    write-wrapped w fits =
        let tail : (r.tail + length bytes) % r.size ≡ r.tail + length bytes =
          mod-eq_of_lt (omega (arith, v.head_in)) in
        let one : ltb r.size (r.tail + length bytes) ≡ false = ground (arith, v.head_in) in
        let behind : ltb (r.tail + length bytes) r.head ≡ true = ground arith in
        let behind₀ : ltb r.tail r.head ≡ true = ground arith in
        rw (
          tail,
          one,
          behind,
          behind₀,
          read_bytes_add (write_bytes r.tail bytes r.buf) 0 r.tail (length bytes),
          read_bytes-write_apart r.tail bytes r.buf r.head (r.size - r.head) (inr (omega arith)),
          read_bytes-write_apart r.tail bytes r.buf 0 r.tail (inl (omega arith)),
          zero-add r.tail,
          read_bytes-write_self r.tail bytes r.buf,
          append_assoc (read_bytes r.buf r.head (r.size - r.head)) (read_bytes r.buf 0 r.tail)
              bytes,
        )

    write-straight :
        r.head ≤ r.tail → r.tail + length bytes < r.size → contents written ≡ contents r ++ bytes
    unfolding contents copy_in
    write-straight s fits =
        let tail : (r.tail + length bytes) % r.size ≡ r.tail + length bytes = mod-eq_of_lt fits in
        let one : ltb r.size (r.tail + length bytes) ≡ false = ground arith in
        let ahead : ltb (r.tail + length bytes) r.head ≡ false = ground arith in
        let ahead₀ : ltb r.tail r.head ≡ false = ground arith in
        let more : r.tail + length bytes - r.head ≡ r.tail - r.head + length bytes = omega arith in
        let here : r.head + (r.tail - r.head) ≡ r.tail = omega arith in
        rw (
          tail,
          one,
          ahead,
          ahead₀,
          more,
          read_bytes_add (write_bytes r.tail bytes r.buf) r.head (r.tail - r.head) (length bytes),
          here,
          read_bytes-write_apart r.tail bytes r.buf r.head (r.tail - r.head) (inl (omega arith)),
          read_bytes-write_self r.tail bytes r.buf,
        )

    -- The bytes end just where the buffer does, and the tail goes back to 0.
    write-to_end :
        r.head ≤ r.tail
        → 0 < r.head
        → r.tail + length bytes ≡ r.size
        → contents written ≡ contents r ++ bytes
    unfolding contents copy_in
    write-to_end s room fits =
        let tail : (r.tail + length bytes) % r.size ≡ 0 =
          ap (λ n. n % r.size) fits ∙ mod_self r.size in
        let one : ltb r.size (r.tail + length bytes) ≡ false = ground arith in
        let behind : ltb 0 r.head ≡ true = ground arith in
        let ahead₀ : ltb r.tail r.head ≡ false = ground arith in
        let more : r.size - r.head ≡ r.tail - r.head + length bytes = omega arith in
        let here : r.head + (r.tail - r.head) ≡ r.tail = omega arith in
        let none_left =
          append-nil (read_bytes (write_bytes r.tail bytes r.buf) r.head (r.size - r.head)) in
        rw (tail, one, behind, ahead₀)
          (unfold read_bytes in
            none_left
            ∙ rw (
              more,
              read_bytes_add (write_bytes r.tail bytes r.buf) r.head (r.tail - r.head)
                  (length bytes),
              here,
              read_bytes-write_apart r.tail bytes r.buf r.head (r.tail - r.head)
                  (inl (omega arith)),
              read_bytes-write_self r.tail bytes r.buf,
            ))

    write-round :
        r.head ≤ r.tail
        → r.size < r.tail + length bytes
        → r.tail + length bytes < r.size + r.head
        → contents written ≡ contents r ++ bytes
    unfolding contents copy_in
    write-round s over fits =
        let right : ℕ = r.size - r.tail in
        let front = take right bytes in
        let back = drop right bytes in
        let tail : (r.tail + length bytes) % r.size ≡ length back =
          mod-eq-sub-mod {n = r.tail + length bytes} {m = r.size} (omega arith)
          ∙ mod-eq_of_lt {n = r.tail + length bytes - r.size} {m = r.size}
              (omega (arith, v.tail_in))
          ∙ omega (arith, length-drop right bytes, v.tail_in) in
        let two : ltb r.size (r.tail + length bytes) ≡ true = ground arith in
        let behind : ltb (length back) r.head ≡ true =
          ground (arith, length-drop right bytes, v.tail_in) in
        let ahead₀ : ltb r.tail r.head ≡ false = ground arith in
        let more : r.size - r.head ≡ r.tail - r.head + length front =
          omega (arith, length-take right bytes, v.tail_in) in
        let here : r.head + (r.tail - r.head) ≡ r.tail = omega arith in
        let first = write_bytes r.tail front r.buf in
        rw (
          tail,
          two,
          behind,
          ahead₀,
          read_bytes-write_self 0 back first,
          read_bytes-write_apart 0 back first r.head (r.size - r.head)
              (inr (omega (arith, length-drop right bytes, v.tail_in))),
          more,
          read_bytes_add first r.head (r.tail - r.head) (length front),
          here,
          read_bytes-write_apart r.tail front r.buf r.head (r.tail - r.head) (inl (omega arith)),
          read_bytes-write_self r.tail front r.buf,
          append_assoc (read_bytes r.buf r.head (r.tail - r.head)) front back,
          take-append-drop right bytes,
        )

    written-contents : length bytes ≤ ring_buffer_free r → contents written ≡ contents r ++ bytes
    unfolding ring_buffer_free
    written-contents fits = elim (Bool-cases (ltb r.tail r.head)) [
      | inl w ↦
          let wrapped : r.tail < r.head = ground arith in
          write-wrapped wrapped (omega (arith, used-wrapped r v wrapped, v.head_in))
      | inr s ↦
          let straight : r.head ≤ r.tail = ground arith in
          let used = used-straight r v straight in
          elim (Bool-cases (ltb (r.tail + length bytes) r.size)) [
            | inl below ↦ write-straight straight (ground arith)
            | inr above ↦ elim (Bool-cases ((r.tail + length bytes) == r.size)) [
              | inl end ↦ write-to_end straight (ground (arith, used, v.tail_in)) (ground arith)
              | inr over ↦ write-round straight (ground arith) (omega (arith, used, v.tail_in))
            ]
          ]
    ]

-- `write_ring_buffer` succeeds exactly where the bytes are at least one and fit in the free space, and
-- then puts them, in order, behind those that the buffer holds.
pub write_ring_buffer_lem :
    (r : RingBuffer) (bytes : List ℕ)
    → IsRing r
    → 0 < length bytes
    → length bytes + length (contents r) < r.size
    → (r' : RingBuffer) × (write_ring_buffer bytes r ≡ some r')
      × IsRing r'
      × (contents r' ≡ contents r ++ bytes)
      × (r'.size ≡ r.size)
unfolding write_ring_buffer ring_buffer_free
write_ring_buffer_lem r bytes v some_bytes fits =
    let used = length-contents r v in
    let ok : (ltb 0 (length bytes) && leb (length bytes) (r.size - ring_buffer_used r - 1)) ≡ true =
      ground (arith, used) in
    (
      record r { buf = copy_in bytes r; tail = (r.tail + length bytes) % r.size },
      rw ok,
      record {
        head_in = v.head_in;
        tail_in = mod-lt (r.tail + length bytes) (omega (arith, v.head_in));
      },
      written-contents r v bytes (unfold ring_buffer_free in omega (arith, used)),
      refl,
    )

-- The bytes held and those that `ring_buffer_free` counts are `size - 1` together, and a write of more
-- than are free fails its assertion.
pub write_ring_buffer-none :
    (r : RingBuffer) (bytes : List ℕ)
    → IsRing r
    → r.size ≤ length bytes + length (contents r)
    → (write_ring_buffer bytes r ≡ none) × (ring_buffer_free r + length (contents r) + 1 ≡ r.size)
unfolding write_ring_buffer ring_buffer_free
write_ring_buffer-none r bytes v full =
    let used = length-contents r v in
    let below = mod-lt (r.tail + r.size - r.head) {m = r.size} (omega (arith, v.head_in)) in
    let below' : ring_buffer_used r < r.size = unfold ring_buffer_used in below in
    let bad : (ltb 0 (length bytes) && leb (length bytes) (r.size - ring_buffer_used r - 1))
        ≡ false =
      ground (arith, used, below') in
    (rw bad, omega (arith, used, below'))
