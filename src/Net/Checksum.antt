-- ===== src/Net/Checksum.antt =====
-- include/checksum.h of Computer Networks/pr11-网络传输机制实验三, and `ip_checksum` of include/ip.h.
use ucas_coursework.Prelude.{
  ℕ, ◌+◌, ◌-◌, ◌*◌, ◌/◌, ◌%◌, ◌^◌, ◌<◌, ◌≡◌, refl, ap, ap₂, ◌∙◌, List, [], ◌∷◌, ◌++◌, arith, take,
  get_or, set,
}

-- The sum of the 16-bit words of a buffer, in the byte order of a little-endian machine; an odd last
-- byte is left to the end.
unfoldable pub sum_words : List ℕ → ℕ
sum_words [] = 0
sum_words (lo ∷ []) = 0
sum_words (lo ∷ hi ∷ bytes) = lo + 256 * hi + sum_words bytes

-- `((u8 *)buf)[nbytes-1]` where the number of bytes is odd
unfoldable pub odd_byte : List ℕ → ℕ
odd_byte [] = 0
odd_byte (b ∷ []) = b
odd_byte (lo ∷ hi ∷ bytes) = odd_byte bytes

-- What `checksum` makes of a sum of 32 bits and the odd byte. (`~` on the lower 16 bits)
unfoldable pub finish : ℕ → ℕ → ℕ
finish sum odd =
    let folded : ℕ = sum / 2 ^ 16 + sum % 2 ^ 16 in
    let again : ℕ = folded + folded / 2 ^ 16 in 2 ^ 16 - 1 - (again + odd) % 2 ^ 16

unfoldable pub checksum : List ℕ → ℕ → ℕ
unfolding sum_words odd_byte finish
checksum buf sum = finish ((sum + sum_words buf) % 2 ^ 32) (odd_byte buf)

-- The header is the first `ihl * 4` bytes, `ihl` the lower half of the first; its bytes 10 and 11 are
-- the checksum field.
unfoldable pub ip_checksum : List ℕ → ℕ
unfolding checksum
ip_checksum hdr = checksum (take (get_or hdr 0 0 % 16 * 4) (set (set hdr 10 0) 11 0)) 0

-- The folded sum is what the receiver's check needs.
finish-verify : (sum : ℕ) → sum < 2 ^ 20 → finish ((sum + finish sum 0) % 2 ^ 32) 0 ≡ 0
unfolding finish
finish-verify sum small = omega arith

-- A list of an even number of bytes.
abbrev pub Even : List ℕ → Type 0
Even [] = Unit {0}
Even (b ∷ []) = ⊥
Even (lo ∷ hi ∷ bytes) = Even bytes

sum_words-append : (xs ys : List ℕ) → Even xs → sum_words (xs ++ ys) ≡ sum_words xs + sum_words ys
unfolding sum_words
sum_words-append [] ys e = omega arith
sum_words-append (b ∷ []) ys e = absurd e
sum_words-append (lo ∷ hi ∷ xs) ys e = omega (arith, sum_words-append xs ys e)

odd_byte-Even : (xs : List ℕ) → Even xs → odd_byte xs ≡ 0
unfolding odd_byte
odd_byte-Even [] e = refl
odd_byte-Even (b ∷ []) e = absurd e
odd_byte-Even (lo ∷ hi ∷ xs) e = odd_byte-Even xs e

Even-append : (xs ys : List ℕ) → Even xs → Even ys → Even (xs ++ ys)
Even-append [] ys e f = f
Even-append (b ∷ []) ys e f = absurd e
Even-append (lo ∷ hi ∷ xs) ys e f = Even-append xs ys e f

-- The checksum with the word `c` between two even parts.
checksum-word :
    (before after : List ℕ) (c : ℕ)
    → Even before
    → Even after
    → checksum (before ++ (c % 256 ∷ c / 256 ∷ after)) 0
      ≡ finish ((sum_words before + sum_words after + c) % 2 ^ 32) 0
unfolding checksum
checksum-word before after c eb ea =
    let bytes : List ℕ = before ++ (c % 256 ∷ c / 256 ∷ after) in
    let parts = sum_words-append before (c % 256 ∷ c / 256 ∷ after) eb in
    let sum : sum_words bytes ≡ sum_words before + sum_words after + c =
      parts ∙ unfold sum_words in omega arith in
    let even = odd_byte-Even bytes (Even-append before (c % 256 ∷ c / 256 ∷ after) eb ea) in
    let start : 0 + sum_words bytes ≡ sum_words before + sum_words after + c = omega (arith, sum) in
    unfold checksum in ap₂ (λ n o. finish (n % 2 ^ 32) o) start even

-- The check of the receiver: where the checksum of a header with 0 in the field is stored into the
-- field, low byte first, the checksum over the whole header is 0. The header has an even number of
-- bytes, whose sum is below 2 ^ 20, as that of 15 words or fewer is.
pub checksum-verify :
    (before after : List ℕ)
    → Even before
    → Even after
    → sum_words before + sum_words after < 2 ^ 20
    → checksum
        (before
          ++ (checksum (before ++ (0 ∷ 0 ∷ after)) 0 % 256
              ∷ checksum (before ++ (0 ∷ 0 ∷ after)) 0 / 256
              ∷ after))
        0
      ≡ 0
checksum-verify before after eb ea small =
    let s : ℕ = sum_words before + sum_words after in
    let none_yet : (s + 0) % 2 ^ 32 ≡ s = omega arith in
    let first : checksum (before ++ (0 ∷ 0 ∷ after)) 0 ≡ finish s 0 =
      checksum-word before after 0 eb ea ∙ ap (λ n. finish n 0) none_yet in
    checksum-word before after (checksum (before ++ (0 ∷ 0 ∷ after)) 0) eb ea
    ∙ ap (λ c. finish ((s + c) % 2 ^ 32) 0) first
    ∙ finish-verify s small
