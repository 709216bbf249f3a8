-- ===== src/Net/Ring/Contents.antt =====
-- The list of bytes that a ring buffer stands for.
use ucas_coursework.Prelude.{
  ℕ, ◌+◌, ◌-◌, ◌<◌, ◌≤◌, ◌≡◌, sym, ap₂, ◌∙◌, List, ◌++◌, arith, ltb, if◌then◌else◌, length, inl,
  inr, Bool-cases, length-append,
}
use native.Mathlib.Nat.{mod-eq_of_lt, mod-eq-sub-mod}
use ucas_coursework.Net.Ring.{RingBuffer, read_bytes, ring_buffer_used}
use ucas_coursework.Net.Ring.Bytes.{length-read_bytes}

pub record IsRing (r : RingBuffer) : Type 0 where
  pub head_in : r.head < r.size
  pub tail_in : r.tail < r.size

-- The bytes from `head` to `tail`, round the end where the tail is behind.
unfoldable pub contents : RingBuffer → List ℕ
contents r =
    if ltb r.tail r.head
    then read_bytes r.buf r.head (r.size - r.head) ++ read_bytes r.buf 0 r.tail
    else read_bytes r.buf r.head (r.tail - r.head)

module _ (r : RingBuffer) (v : IsRing r) where
  pub used-wrapped : r.tail < r.head → ring_buffer_used r ≡ r.size - r.head + r.tail
  unfolding ring_buffer_used
  used-wrapped h =
      mod-eq_of_lt {n = r.tail + r.size - r.head} {m = r.size} (omega (arith, v.head_in))
      ∙ omega (arith, v.head_in)

  pub used-straight : r.head ≤ r.tail → ring_buffer_used r ≡ r.tail - r.head
  unfolding ring_buffer_used
  used-straight h =
      mod-eq-sub-mod {n = r.tail + r.size - r.head} {m = r.size} (omega arith)
      ∙ mod-eq_of_lt {n = r.tail + r.size - r.head - r.size} {m = r.size} (omega (arith, v.tail_in))
      ∙ omega arith

  pub length-contents : length (contents r) ≡ ring_buffer_used r
  unfolding contents
  length-contents = elim (Bool-cases (ltb r.tail r.head)) [
    | inl w ↦ rw w (
        length-append (read_bytes r.buf r.head (r.size - r.head)) (read_bytes r.buf 0 r.tail)
        ∙ ap₂ (λ a b. a + b) (length-read_bytes r.buf r.head (r.size - r.head))
            (length-read_bytes r.buf 0 r.tail)
        ∙ sym (used-wrapped (ground arith)))
    | inr s ↦
        rw s (length-read_bytes r.buf r.head (r.tail - r.head) ∙ sym (used-straight (ground arith)))
  ]
