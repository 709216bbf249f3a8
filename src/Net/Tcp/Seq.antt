-- ===== src/Net/Tcp/Seq.antt =====
-- The comparison of sequence numbers in include/tcp.h of pr11, on the circle of 32 bits.
use ucas_coursework.Prelude.{
  ℕ, ◌+◌, ◌-◌, ◌%◌, ◌^◌, ◌<◌, ◌≡◌, Bool, arith, ltb, leb, not, ◌==◌, ◌||◌,
}
use ucas_coursework.Net.Tcp.{u32}

-- `(int32_t)a - (int32_t)b`, as the bits that the subtraction leaves on the machine, also where it
-- overflows
unfoldable pub difference : ℕ → ℕ → ℕ
difference a b = (a + 2 ^ 32 - b) % 2 ^ 32

-- The sign bit of the difference.
unfoldable pub less_than_32b : ℕ → ℕ → Bool
unfolding difference
less_than_32b a b = leb (2 ^ 31) (difference a b)

unfoldable pub less_or_equal_32b : ℕ → ℕ → Bool
unfolding difference
less_or_equal_32b a b = difference a b == 0 || leb (2 ^ 31) (difference a b)

unfoldable pub greater_or_equal_32b : ℕ → ℕ → Bool
unfolding less_than_32b
greater_or_equal_32b a b = not (less_than_32b a b)

unfoldable pub greater_than_32b : ℕ → ℕ → Bool
unfolding less_or_equal_32b
greater_than_32b a b = not (less_or_equal_32b a b)

-- The difference of two numbers less than 2 ^ 31 apart, that are counted from the same start.
difference_lem :
    (start m n : ℕ)
    → m < 2 ^ 31
    → n < 2 ^ 31
    → difference (u32 (start + m)) (u32 (start + n)) ≡ (m + 2 ^ 32 - n) % 2 ^ 32
unfolding difference
difference_lem start m n hm hn = omega arith

-- Of two sequence numbers less than 2 ^ 31 apart, the four comparisons find which is ahead, also where
-- counting from one to the other goes past 2 ^ 32.
pub compare_32b_lem :
    (start m n : ℕ)
    → m < 2 ^ 31
    → n < 2 ^ 31
    → (less_than_32b (u32 (start + m)) (u32 (start + n)) ≡ ltb m n)
      × (less_or_equal_32b (u32 (start + m)) (u32 (start + n)) ≡ leb m n)
      × (greater_than_32b (u32 (start + m)) (u32 (start + n)) ≡ ltb n m)
      × (greater_or_equal_32b (u32 (start + m)) (u32 (start + n)) ≡ leb n m)
unfolding less_than_32b less_or_equal_32b greater_or_equal_32b greater_than_32b difference
compare_32b_lem start m n hm hn = ground (arith, difference_lem start m n hm hn)
