-- ===== src/Switch/Learn.antt =====
-- What mac.c of Computer Networks/pr2-交换机转发实验 learns is what it finds.
use ucas_coursework.Prelude.{
  ℕ, ◌≡◌, ◌≢◌, refl, ap, ap₂, sym, true, false, some, List, [], ◌∷◌, ◌==◌, ==_refl, Bool-cases, inl,
  inr, arith,
}
use ucas_coursework.Switch.{
  MacPortEntry, hash_bytes, same_mac, lookup_in, lookup_port, insert_mac_port,
}

same_mac_self : (mac : List ℕ) → same_mac mac mac ≡ true
unfolding same_mac
same_mac_self [] = refl
same_mac_self (b ∷ bytes) = rw (==_refl b, same_mac_self bytes) refl

same_mac_eq : (xs ys : List ℕ) → same_mac xs ys ≡ true → xs ≡ ys
unfolding same_mac
same_mac_eq [] [] h = refl
same_mac_eq [] (y ∷ ys) h = absurd (cc h)
same_mac_eq (x ∷ xs) [] h = absurd (cc h)
same_mac_eq (x ∷ xs) (y ∷ ys) h =
    let first : x ≡ y = ground (arith, h) in
    let rest : same_mac xs ys ≡ true = ground (arith, h) in
    ap₂ (λ b l. b ∷ l) first (same_mac_eq xs ys rest)

same_mac_apart : (xs ys : List ℕ) → xs ≢ ys → same_mac xs ys ≡ false
same_mac_apart xs ys ne = elim (Bool-cases (same_mac xs ys)) [
  | inl same ↦ absurd (ne (same_mac_eq xs ys same))
  | inr apart ↦ apart
]

-- After an insertion the lookup of the address finds the interface, and the lookup of any other address
-- finds what it found before.
pub lookup_port-insert_mac_port :
    (now later iface : ℕ) (mac other : List ℕ) (table : ℕ → List MacPortEntry)
    → other ≢ mac
    → ((lookup_port later mac (insert_mac_port now mac iface table)).0 ≡ some iface)
      × ((lookup_port later other (insert_mac_port now mac iface table)).0
          ≡ (lookup_port later other table).0)
unfolding lookup_port insert_mac_port lookup_in
lookup_port-insert_mac_port now later iface mac other table ne = (
  rw (==_refl (hash_bytes mac), same_mac_self mac) refl,
  let apart : same_mac other mac ≡ false = same_mac_apart other mac ne in
      elim (Bool-cases (hash_bytes other == hash_bytes mac)) [
        | inl same ↦
            let e : hash_bytes other ≡ hash_bytes mac = ground arith in
            rw (same, apart) (ap (λ h. (lookup_in later other (table h)).0) (sym e))
        | inr apart' ↦ rw apart' refl
      ],
)
