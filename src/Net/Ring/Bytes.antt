-- ===== src/Net/Ring/Bytes.antt =====
-- Reading back what was copied to a buffer, and lists cut at a length.
use ucas_coursework.Prelude.{
  ℕ, zero, suc, ◌+◌, ◌<◌, ◌≤◌, ◌≡◌, refl, ap, ap₂, ◌∙◌, List, [], ◌∷◌, ◌++◌, arith, update, length,
  take, drop, ◌⊎◌, inl, inr,
}
use native.Mathlib.Nat.{zero-add, add-zero, suc-add}
use ucas_coursework.Net.Ring.{read_bytes, write_bytes}

pub length-read_bytes : (buf : ℕ → ℕ) (a n : ℕ) → length (read_bytes buf a n) ≡ n
unfolding read_bytes
length-read_bytes buf a zero = refl
length-read_bytes buf a (suc n) = ap suc (length-read_bytes buf (a + 1) n)

pub read_bytes_add :
    (buf : ℕ → ℕ) (a m n : ℕ)
    → read_bytes buf a (m + n) ≡ read_bytes buf a m ++ read_bytes buf (a + m) n
unfolding read_bytes
read_bytes_add buf a zero n = rw (zero-add n, add-zero a)
read_bytes_add buf a (suc m) n =
    let next : a + suc m ≡ a + 1 + m = omega arith in
    rw (suc-add m n, next) (ap (λ l. buf a ∷ l) (read_bytes_add buf (a + 1) m n))

pub read_bytes_cong :
    (f g : ℕ → ℕ) (a n : ℕ)
    → ((p : ℕ) → a ≤ p → p < a + n → f p ≡ g p)
    → read_bytes f a n ≡ read_bytes g a n
unfolding read_bytes
read_bytes_cong f g a zero h = refl
read_bytes_cong f g a (suc n) h =
    ap₂ (λ x l. x ∷ l) (h a (omega arith) (omega arith))
      (read_bytes_cong f g (a + 1) n (λ p lo hi. h p (omega arith) (omega arith)))

-- An address outside the copied range keeps its byte.
pub write_bytes_ne :
    (a : ℕ) (bytes : List ℕ) (buf : ℕ → ℕ) (p : ℕ)
    → (p < a) ⊎ (a + length bytes ≤ p)
    → write_bytes a bytes buf p ≡ buf p
unfolding write_bytes
write_bytes_ne a [] buf p h = refl
write_bytes_ne a (b ∷ bytes) buf p (inl h) =
    write_bytes_ne (a + 1) bytes (update buf a b) p (inl (omega arith)) ∙ ground arith
write_bytes_ne a (b ∷ bytes) buf p (inr h) =
    write_bytes_ne (a + 1) bytes (update buf a b) p (inr (omega arith)) ∙ ground arith

pub read_bytes-write_self :
    (a : ℕ) (bytes : List ℕ) (buf : ℕ → ℕ)
    → read_bytes (write_bytes a bytes buf) a (length bytes) ≡ bytes
unfolding read_bytes write_bytes
read_bytes-write_self a [] buf = refl
read_bytes-write_self a (b ∷ bytes) buf =
    ap₂ (λ x l. x ∷ l)
      (write_bytes_ne (a + 1) bytes (update buf a b) a (inl (omega arith)) ∙ ground arith)
      (read_bytes-write_self (a + 1) bytes (update buf a b))

pub read_bytes-write_apart :
    (a : ℕ) (bytes : List ℕ) (buf : ℕ → ℕ) (p n : ℕ)
    → (p + n ≤ a) ⊎ (a + length bytes ≤ p)
    → read_bytes (write_bytes a bytes buf) p n ≡ read_bytes buf p n
read_bytes-write_apart a bytes buf p n (inl h) =
    read_bytes_cong (write_bytes a bytes buf) buf p n
      λ q lo hi. write_bytes_ne a bytes buf q (inl (omega arith))
read_bytes-write_apart a bytes buf p n (inr h) =
    read_bytes_cong (write_bytes a bytes buf) buf p n
      λ q lo hi. write_bytes_ne a bytes buf q (inr (omega arith))

pub take-append_length :
    (xs ys : List ℕ) (n : ℕ) → take (length xs + n) (xs ++ ys) ≡ xs ++ take n ys
take-append_length [] ys n = ap (λ m. take m ys) (zero-add n)
take-append_length (x ∷ xs) ys n =
    rw (suc-add (length xs) n) (ap (λ l. x ∷ l) (take-append_length xs ys n))

pub drop-append_length : (xs ys : List ℕ) (n : ℕ) → drop (length xs + n) (xs ++ ys) ≡ drop n ys
drop-append_length [] ys n = ap (λ m. drop m ys) (zero-add n)
drop-append_length (x ∷ xs) ys n = rw (suc-add (length xs) n) (drop-append_length xs ys n)
