-- ===== src/Memory/Copy.antt =====
-- `bcopy` of util.c, Operating System/p5-Virtual Memory: what it writes and what it leaves.
use ucas_coursework.Prelude.{
  ℕ, zero, suc, ◌+◌, ◌*◌, ◌≤◌, ◌<◌, ◌≡◌, ◌≢◌, refl, ◌∙◌, inl, inr, ◌⊎◌, Bool-cases, arith, ltb,
  ◌==◌, ==_ne, ==_refl, update,
}
use ucas_coursework.Memory.{copy_down, copy_up, bcopy}

-- The address is not among the words of `n` words from `dst` on.
abbrev pub Outside : ℕ → ℕ → ℕ → Type 0
Outside n dst a = (a < dst) ⊎ (dst + 4 * n ≤ a)

-- Two regions of `n` words have no word in common.
abbrev pub Apart : ℕ → ℕ → ℕ → Type 0
Apart n src dst = (src + 4 * n ≤ dst) ⊎ (dst + 4 * n ≤ src)

pub update_ne : (mem : ℕ → ℕ) (p v a : ℕ) → a ≢ p → update mem p v a ≡ mem a
update_ne mem p v a h = rw (==_ne a p h) refl

pub update_self : (mem : ℕ → ℕ) (p v : ℕ) → update mem p v p ≡ v
update_self mem p v = rw (==_refl p) refl

copy_down-Outside :
    (n src dst : ℕ) (mem : ℕ → ℕ) (a : ℕ) → Outside n dst a → copy_down n src dst mem a ≡ mem a
unfolding copy_down
copy_down-Outside zero src dst mem a h = refl
copy_down-Outside (suc n) src dst mem a h =
    copy_down-Outside n src dst _ a (shorter h)
    ∙ update_ne mem (dst + 4 * n) (mem (src + 4 * n)) a (other h)
  where
    shorter : Outside (suc n) dst a → Outside n dst a
    shorter (inl below) = inl below
    shorter (inr above) = inr (omega arith)

    other : Outside (suc n) dst a → a ≢ dst + 4 * n
    other (inl below) e = absurd (omega (arith, e))
    other (inr above) e = absurd (omega (arith, e))

copy_up-Outside :
    (n src dst : ℕ) (mem : ℕ → ℕ) (a : ℕ) → Outside n dst a → copy_up n src dst mem a ≡ mem a
unfolding copy_up
copy_up-Outside zero src dst mem a h = refl
copy_up-Outside (suc n) src dst mem a h =
    copy_up-Outside n (src + 4) (dst + 4) _ a (shorter h) ∙ update_ne mem dst (mem src) a (other h)
  where
    shorter : Outside (suc n) dst a → Outside n (dst + 4) a
    shorter (inl below) = inl (omega arith)
    shorter (inr above) = inr (omega arith)

    other : Outside (suc n) dst a → a ≢ dst
    other (inl below) e = absurd (omega (arith, e))
    other (inr above) e = absurd (omega (arith, e))

pub bcopy-Outside :
    (n src dst : ℕ) (mem : ℕ → ℕ) (a : ℕ) → Outside n dst a → bcopy n src dst mem a ≡ mem a
unfolding bcopy
bcopy-Outside n src dst mem a h = elim (Bool-cases (ltb src dst)) [
  | inl down ↦ rw down (copy_down-Outside n src dst mem a h)
  | inr up ↦ rw up (copy_up-Outside n src dst mem a h)
]

copy_down-inside :
    (n src dst : ℕ) (mem : ℕ → ℕ) (k : ℕ)
    → k < n
    → Apart n src dst
    → copy_down n src dst mem (dst + 4 * k) ≡ mem (src + 4 * k)
unfolding copy_down
copy_down-inside zero src dst mem k h d = absurd (omega arith)
copy_down-inside (suc n) src dst mem k h d = elim (Bool-cases (k == n)) [
  | inl last ↦
      let e : k ≡ n = ground (arith, last) in
      rw e (
        copy_down-Outside n src dst _ (dst + 4 * n) (inr (omega arith))
        ∙ update_self mem (dst + 4 * n) (mem (src + 4 * n)))
  | inr more ↦
      copy_down-inside n src dst _ k (ground (arith, more, h)) (shorter d)
      ∙ update_ne mem (dst + 4 * n) (mem (src + 4 * n)) (src + 4 * k) (other d)
]
  where
    shorter : Apart (suc n) src dst → Apart n src dst
    shorter (inl below) = inl (omega arith)
    shorter (inr above) = inr (omega arith)

    other : Apart (suc n) src dst → src + 4 * k ≢ dst + 4 * n
    other (inl below) e = absurd (omega (arith, e, h))
    other (inr above) e = absurd (omega (arith, e, h))

copy_up-inside :
    (n src dst : ℕ) (mem : ℕ → ℕ) (k : ℕ)
    → k < n
    → Apart n src dst
    → copy_up n src dst mem (dst + 4 * k) ≡ mem (src + 4 * k)
unfolding copy_up
copy_up-inside zero src dst mem k h d = absurd (omega arith)
copy_up-inside (suc n) src dst mem zero h d =
    let s : src + 4 * 0 ≡ src = omega arith in
    let t : dst + 4 * 0 ≡ dst = omega arith in
    rw (s, t)
      (copy_up-Outside n (src + 4) (dst + 4) _ dst (inl (omega arith))
        ∙ update_self mem dst (mem src))
copy_up-inside (suc n) src dst mem (suc k) h d =
    let s : src + 4 * suc k ≡ src + 4 + 4 * k = omega arith in
    let t : dst + 4 * suc k ≡ dst + 4 + 4 * k = omega arith in
    rw (s, t)
      (copy_up-inside n (src + 4) (dst + 4) _ k (omega arith) (shorter d)
        ∙ update_ne mem dst (mem src) (src + 4 + 4 * k) (other d))
  where
    shorter : Apart (suc n) src dst → Apart n (src + 4) (dst + 4)
    shorter (inl below) = inl (omega arith)
    shorter (inr above) = inr (omega arith)

    other : Apart (suc n) src dst → src + 4 + 4 * k ≢ dst
    other (inl below) e = absurd (omega (arith, e, h))
    other (inr above) e = absurd (omega (arith, e, h))

pub bcopy-inside :
    (n src dst : ℕ) (mem : ℕ → ℕ) (k : ℕ)
    → k < n
    → Apart n src dst
    → bcopy n src dst mem (dst + 4 * k) ≡ mem (src + 4 * k)
unfolding bcopy
bcopy-inside n src dst mem k h d = elim (Bool-cases (ltb src dst)) [
  | inl down ↦ rw down (copy_down-inside n src dst mem k h d)
  | inr up ↦ rw up (copy_up-inside n src dst mem k h d)
]
