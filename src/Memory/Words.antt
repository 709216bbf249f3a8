-- ===== src/Memory/Words.antt =====
-- The bits of the words that memory.c of Operating System/p5-Virtual Memory builds and tests.
use Prim.Native.Nat.{bit_and, bit_or, digits, max, bit_and-bitwise, bit_or-bitwise}
use ucas_coursework.Prelude.{
  ℕ, zero, suc, ◌+◌, ◌*◌, ◌/◌, ◌%◌, ◌^◌, ◌≤◌, ◌<◌, min, ◌≡◌, refl, ap, ◌∙◌, arith,
}

-- More rounds than the first number has digits change nothing.
digits-enough :
    (z : ℕ → ℕ) (f : ℕ → ℕ → ℕ) (n k a b : ℕ) → a ≤ n → a ≤ k → digits z f n a b ≡ digits z f k a b
digits-enough z f zero zero a b p q = refl
digits-enough z f zero (suc k) zero b p q = refl
digits-enough z f zero (suc k) (suc a) b p q = absurd (omega arith)
digits-enough z f (suc n) zero zero b p q = refl
digits-enough z f (suc n) zero (suc a) b p q = absurd (omega arith)
digits-enough z f (suc n) (suc k) zero b p q = refl
digits-enough z f (suc n) (suc k) (suc a) b p q =
    ap (λ d. d * 2 + f (suc a % 2) (b % 2))
      (digits-enough z f n k (suc a / 2) (b / 2) (omega arith) (omega arith))

-- The law of the lowest digit
or-lowest : (a b : ℕ) → bit_or a b ≡ bit_or (a / 2) (b / 2) * 2 + max (a % 2) (b % 2)
or-lowest zero b = omega (arith, bit_or-bitwise 0 b, bit_or-bitwise 0 (b / 2))
or-lowest (suc a) b = omega (
  arith,
  bit_or-bitwise (suc a) b,
  bit_or-bitwise (suc a / 2) (b / 2),
  digits-enough (λ c. c) max a (suc a / 2) (suc a / 2) (b / 2) (omega arith) (omega arith),
)

and-lowest : (a b : ℕ) → bit_and a b ≡ bit_and (a / 2) (b / 2) * 2 + min (a % 2) (b % 2)
and-lowest zero b = omega (arith, bit_and-bitwise 0 b, bit_and-bitwise 0 (b / 2))
and-lowest (suc a) b = omega (
  arith,
  bit_and-bitwise (suc a) b,
  bit_and-bitwise (suc a / 2) (b / 2),
  digits-enough (λ c. zero) min a (suc a / 2) (suc a / 2) (b / 2) (omega arith) (omega arith),
)

-- `a` and `k` zeros behind it
abbrev shifted : ℕ → ℕ → ℕ
shifted zero a = a
shifted (suc k) a = shifted k a * 2

-- `k` ones
abbrev ones : ℕ → ℕ
ones zero = 0
ones (suc k) = ones k * 2 + 1

or-zero : (a : ℕ) → bit_or a 0 ≡ a
or-zero a = or-zero_below a a (omega arith)
  where
    or-zero_below : (n a : ℕ) → a ≤ n → bit_or a 0 ≡ a
    or-zero_below zero zero h = omega (arith, bit_or-bitwise 0 0)
    or-zero_below zero (suc a) h = absurd (omega arith)
    or-zero_below (suc n) zero h = omega (arith, bit_or-bitwise 0 0)
    or-zero_below (suc n) (suc a) h =
        omega (arith, or-lowest (suc a) 0, or-zero_below n (suc a / 2) (omega arith))

and-zero : (a : ℕ) → bit_and a 0 ≡ 0
and-zero a = and-zero_below a a (omega arith)
  where
    and-zero_below : (n a : ℕ) → a ≤ n → bit_and a 0 ≡ 0
    and-zero_below zero zero h = omega (arith, bit_and-bitwise 0 0)
    and-zero_below zero (suc a) h = absurd (omega arith)
    and-zero_below (suc n) zero h = omega (arith, bit_and-bitwise 0 0)
    and-zero_below (suc n) (suc a) h =
        omega (arith, and-lowest (suc a) 0, and-zero_below n (suc a / 2) (omega arith))

-- Below the zeros an or is a sum.
or-shifted : (k a b : ℕ) → b ≤ ones k → bit_or (shifted k a) b ≡ shifted k a + b
or-shifted zero a b h = let e : b ≡ 0 = omega arith in rw e (or-zero a ∙ omega arith)
or-shifted (suc k) a b h =
    let half : shifted k a * 2 / 2 ≡ shifted k a = omega arith in
    let low : shifted k a * 2 % 2 ≡ 0 = omega arith in
    let ih = or-shifted k a (b / 2) (omega arith) in
    let e : bit_or (shifted k a * 2 / 2) (b / 2) ≡ shifted k a + b / 2 = rw half ih in
    or-lowest (shifted k a * 2) b ∙ omega (arith, e, low)

-- A mask of ones keeps what is below the zeros.
and-ones : (k a b : ℕ) → b ≤ ones k → bit_and (shifted k a + b) (ones k) ≡ b
and-ones zero a b h = and-zero (a + b) ∙ omega arith
and-ones (suc k) a b h =
    let half : (shifted k a * 2 + b) / 2 ≡ shifted k a + b / 2 = omega arith in
    let low : (shifted k a * 2 + b) % 2 ≡ b % 2 = omega arith in
    let mask : (ones k * 2 + 1) / 2 ≡ ones k = omega arith in
    let ih = and-ones k a (b / 2) (omega arith) in
    let e : bit_and ((shifted k a * 2 + b) / 2) ((ones k * 2 + 1) / 2) ≡ b / 2 =
      rw (half, mask) ih in
    and-lowest (shifted k a * 2 + b) (ones k * 2 + 1) ∙ omega (arith, e, low)

-- `(vaddr << 13) | pid`, and the two fields that the searches read from it
pub entryhi_lem :
    (vpn pid : ℕ)
    → vpn < 2 ^ 19
    → pid < 2 ^ 12
    → let hi : ℕ = bit_or (vpn * 2 ^ 13 % 2 ^ 32) pid in
      (hi / 2 ^ 13 ≡ vpn) × (bit_and hi 0x0fff ≡ pid)
entryhi_lem vpn pid v p =
    let high : vpn * 2 ^ 13 % 2 ^ 32 ≡ shifted 13 vpn = omega arith in
    let sum : bit_or (vpn * 2 ^ 13 % 2 ^ 32) pid ≡ shifted 13 vpn + pid =
      rw high (or-shifted 13 vpn pid (omega arith)) in
    let low : bit_and (shifted 12 (vpn * 2) + pid) 0x0fff ≡ pid =
      and-ones 12 (vpn * 2) pid (omega arith) in
    let same : shifted 13 vpn + pid ≡ shifted 12 (vpn * 2) + pid = omega arith in
    (omega (arith, sum), ap (λ x. bit_and x 0x0fff) (sum ∙ same) ∙ low)
