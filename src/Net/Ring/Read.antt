-- ===== src/Net/Ring/Read.antt =====
-- Reading from the ring buffer takes bytes off the front of the queue.
use ucas_coursework.Prelude.{
  ℕ, zero, suc, ◌+◌, ◌-◌, ◌%◌, ◌<◌, ◌≤◌, ◌≡◌, refl, sym, ap, ◌∙◌, true, false, List, [], ◌∷◌, ◌++◌,
  arith, ◌==◌, ltb, length, take, drop, inl, inr, min, Bool-cases, append_assoc, length-append,
}
use native.Mathlib.Nat.{mod-eq_of_lt, mod-eq-sub-mod, mod_self, mod-lt}
use ucas_coursework.Net.Ring.{RingBuffer, read_bytes, ring_buffer_used, copy_out, read_ring_buffer}
use ucas_coursework.Net.Ring.Bytes.{length-read_bytes, read_bytes_add}
use ucas_coursework.Net.Ring.Contents.{
  IsRing, contents, used-wrapped, used-straight, length-contents,
}

-- The buffer after `len` bytes have been read.
abbrev advanced : ℕ → RingBuffer → RingBuffer
advanced len r = record r { head = (r.head + len) % r.size }

module _ (r : RingBuffer) (v : IsRing r) (len : ℕ) where
  split-straight : r.head + len ≤ r.tail → contents r ≡ copy_out len r ++ contents (advanced len r)
  unfolding contents copy_out
  split-straight le =
      let head : (r.head + len) % r.size ≡ r.head + len = mod-eq_of_lt (omega (arith, v.tail_in)) in
      let ahead : ltb r.tail (r.head + len) ≡ false = ground arith in
      let ahead₀ : ltb r.tail r.head ≡ false = ground arith in
      let one : ltb r.size (r.head + len) ≡ false = ground (arith, v.tail_in) in
      let parts : r.tail - r.head ≡ len + (r.tail - (r.head + len)) = omega arith in
      rw
        (head, ahead, ahead₀, one, parts, read_bytes_add r.buf r.head len (r.tail - (r.head + len)))

  split-wrapped :
      r.tail < r.head
      → r.head + len < r.size
      → contents r ≡ copy_out len r ++ contents (advanced len r)
  unfolding contents copy_out
  split-wrapped w below =
      let head : (r.head + len) % r.size ≡ r.head + len = mod-eq_of_lt below in
      let behind : ltb r.tail (r.head + len) ≡ true = ground arith in
      let behind₀ : ltb r.tail r.head ≡ true = ground arith in
      let one : ltb r.size (r.head + len) ≡ false = ground arith in
      let parts : r.size - r.head ≡ len + (r.size - (r.head + len)) = omega arith in
      rw (
        head,
        behind,
        behind₀,
        one,
        parts,
        read_bytes_add r.buf r.head len (r.size - (r.head + len)),
        append_assoc (read_bytes r.buf r.head len)
            (read_bytes r.buf (r.head + len) (r.size - (r.head + len))) (read_bytes r.buf 0 r.tail),
      )

  -- The bytes read end just where the buffer does, and the head goes back to 0.
  split-to_end :
      r.tail < r.head
      → r.head + len ≡ r.size
      → contents r ≡ copy_out len r ++ contents (advanced len r)
  unfolding contents copy_out
  split-to_end w end =
      let head : (r.head + len) % r.size ≡ 0 = ap (λ n. n % r.size) end ∙ mod_self r.size in
      let ahead : ltb r.tail 0 ≡ false = ground arith in
      let behind₀ : ltb r.tail r.head ≡ true = ground arith in
      let one : ltb r.size (r.head + len) ≡ false = ground arith in
      let parts : r.size - r.head ≡ len = omega arith in
      let all : r.tail - 0 ≡ r.tail = omega arith in rw (head, ahead, behind₀, one, parts, all)

  split-round :
      r.tail < r.head
      → r.size < r.head + len
      → r.head + len ≤ r.size + r.tail
      → contents r ≡ copy_out len r ++ contents (advanced len r)
  unfolding contents copy_out
  split-round w over le =
      let left : ℕ = len - (r.size - r.head) in
      let head : (r.head + len) % r.size ≡ left =
        mod-eq-sub-mod {n = r.head + len} {m = r.size} (omega arith)
        ∙ mod-eq_of_lt {n = r.head + len - r.size} {m = r.size} (omega (arith, v.tail_in))
        ∙ omega (arith, v.head_in) in
      let ahead : ltb r.tail left ≡ false = ground (arith, v.head_in) in
      let behind₀ : ltb r.tail r.head ≡ true = ground arith in
      let two : ltb r.size (r.head + len) ≡ true = ground arith in
      let parts : r.tail ≡ left + (r.tail - left) = omega (arith, v.head_in) in
      let start : 0 + left ≡ left = omega arith in
      rw (head, ahead, two, behind₀)
        (ap (λ n. read_bytes r.buf r.head (r.size - r.head) ++ read_bytes r.buf 0 n) parts
          ∙ rw (
            read_bytes_add r.buf 0 left (r.tail - left),
            start,
            append_assoc (read_bytes r.buf r.head (r.size - r.head)) (read_bytes r.buf 0 left)
                (read_bytes r.buf left (r.tail - left)),
          ))

  pub contents-split :
      len ≤ ring_buffer_used r → contents r ≡ copy_out len r ++ contents (advanced len r)
  contents-split le = elim (Bool-cases (ltb r.tail r.head)) [
    | inl w ↦
        let wrapped : r.tail < r.head = ground arith in
        let used = used-wrapped r v wrapped in
        elim (Bool-cases (ltb (r.head + len) r.size)) [
          | inl below ↦ split-wrapped wrapped (ground arith)
          | inr above ↦ elim (Bool-cases ((r.head + len) == r.size)) [
            | inl end ↦ split-to_end wrapped (ground arith)
            | inr over ↦ split-round wrapped (ground arith) (omega (arith, used, v.head_in))
          ]
        ]
    | inr s ↦
        let straight : r.head ≤ r.tail = ground arith in
        split-straight (omega (arith, used-straight r v straight))
  ]

  pub length-copy_out : len ≤ r.size → length (copy_out len r) ≡ len
  unfolding copy_out
  length-copy_out le = elim (Bool-cases (ltb r.size (r.head + len))) [
    | inl two ↦ rw two (
        length-append (read_bytes r.buf r.head (r.size - r.head))
          (read_bytes r.buf 0 (len - (r.size - r.head)))
        ∙ rw
            (
              length-read_bytes r.buf r.head (r.size - r.head),
              length-read_bytes r.buf 0 (len - (r.size - r.head)),
            )
            (ground (arith, v.head_in)))
    | inr one ↦ rw one (length-read_bytes r.buf r.head len)
  ]

-- The prefix of a list of known length, and what is behind it, where `n` is cut to what there is.
prefix-take :
    (n : ℕ) (xs ys : List ℕ)
    → length xs ≡ min (length (xs ++ ys)) n
    → (take n (xs ++ ys) ≡ xs) × (drop n (xs ++ ys) ≡ ys)
prefix-take zero [] ys l = (refl, refl)
prefix-take (suc n) [] [] l = (refl, refl)
prefix-take (suc n) [] (y ∷ ys) l = absurd (omega (arith, l))
prefix-take zero (x ∷ xs) ys l = absurd (omega (arith, l))
prefix-take (suc n) (x ∷ xs) ys l =
    let (front, back) = prefix-take n xs ys (omega (arith, l)) in (ap (λ t. x ∷ t) front, back)

-- `read_ring_buffer` hands over the first `n` bytes that the buffer holds, in order, or all of them
-- where there are fewer, and leaves the others, in order.
pub read_ring_buffer_lem :
    (r : RingBuffer) (n : ℕ)
    → IsRing r
    → (r' : RingBuffer) × (read_ring_buffer n r ≡ (take n (contents r), r'))
      × IsRing r'
      × (contents r' ≡ drop n (contents r))
      × (r'.size ≡ r.size)
unfolding read_ring_buffer
read_ring_buffer_lem r n v =
    let used = length-contents r v in
    let bound = mod-lt (r.tail + r.size - r.head) {m = r.size} (omega (arith, v.head_in)) in
    let below : ring_buffer_used r < r.size = unfold ring_buffer_used in bound in
    let len : ℕ = min (ring_buffer_used r) n in
    let parts = contents-split r v len (omega arith) in
    let copied = length-copy_out r v len (omega (arith, below)) in
    let lengths : length (copy_out len r)
        ≡ min (length (copy_out len r ++ contents (advanced len r))) n =
      copied ∙ ap (λ m. min m n) (sym used ∙ ap length parts) in
    let (front, back) = prefix-take n (copy_out len r) (contents (advanced len r)) lengths in
    elim (Bool-cases (ltb 0 len)) [
      | inl some_bytes ↦ (
        advanced len r,
        rw some_bytes (ap (λ l. (l, advanced len r)) (sym front ∙ ap (take n) (sym parts))),
        record { head_in = mod-lt (r.head + len) (omega (arith, below)); tail_in = v.tail_in },
        sym back ∙ ap (drop n) (sym parts),
        refl,
      )
      | inr no_bytes ↦
          let (none_taken, all_left) = prefix-take n [] (contents r) (ground (arith, used)) in
          (r, rw no_bytes (ap (λ l. (l, r)) (sym none_taken)), v, sym all_left, refl)
    ]
