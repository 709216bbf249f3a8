-- ===== src/Stp/Order.antt =====
-- The order in which stp.c prefers ports and messages.
use ucas_coursework.Prelude.{
  ℕ, ◌≤◌, ◌≡◌, refl, sym, ◌∙◌, Bool, true, false, List, [], ◌∷◌, arith, ◌==◌, ltb, ◌||◌,
  if◌then◌else◌,
}
use ucas_coursework.Stp.{StpPort, StpConfig, cmp_with_incoming_config, cmp_2_ports}

-- The lexicographic order on lists of numbers of one length.
unfoldable pub lex_le : List ℕ → List ℕ → Bool
lex_le [] ys = true
lex_le (x ∷ xs) [] = false
lex_le (x ∷ xs) (y ∷ ys) = if x == y then lex_le xs ys else ltb x y

-- What a port knows of the way to the root, first what counts most.
abbrev pub vector : StpPort → List ℕ
vector p = p.designated_root ∷ p.designated_cost ∷ p.designated_switch ∷ p.designated_port ∷ []

abbrev pub config_vector : StpConfig → List ℕ
config_vector c = c.root_id ∷ c.root_path_cost ∷ c.switch_id ∷ c.port_id ∷ []

lex_le_total : (xs ys : List ℕ) → (lex_le xs ys || lex_le ys xs) ≡ true
unfolding lex_le
lex_le_total [] ys = refl
lex_le_total (x ∷ xs) [] = refl
lex_le_total (x ∷ xs) (y ∷ ys) = ground (arith, lex_le_total xs ys)

lex_le_trans : (xs ys zs : List ℕ) → lex_le xs ys ≡ true → lex_le ys zs ≡ true → lex_le xs zs ≡ true
unfolding lex_le
lex_le_trans [] ys zs p q = refl
lex_le_trans (x ∷ xs) [] zs p q = absurd (ground arith)
lex_le_trans (x ∷ xs) (y ∷ ys) [] p q = q
lex_le_trans (x ∷ xs) (y ∷ ys) (z ∷ zs) p q = ground (arith, lex_le_trans xs ys zs)

lex_le_antisym : (xs ys : List ℕ) → lex_le xs ys ≡ true → lex_le ys xs ≡ true → xs ≡ ys
unfolding lex_le
lex_le_antisym [] [] p q = refl
lex_le_antisym [] (y ∷ ys) p q = absurd (ground arith)
lex_le_antisym (x ∷ xs) [] p q = absurd (ground arith)
lex_le_antisym (x ∷ xs) (y ∷ ys) p q = ground (arith, lex_le_antisym xs ys)

cmp_2_ports-lex_le : (p q : StpPort) → cmp_2_ports p q ≡ lex_le (vector p) (vector q)
unfolding cmp_2_ports lex_le
cmp_2_ports-lex_le p q = ground arith

cmp_with_incoming_config-lex_le :
    (p : StpPort) (c : StpConfig)
    → cmp_with_incoming_config p c ≡ lex_le (vector p) (config_vector c)
unfolding cmp_with_incoming_config lex_le
cmp_with_incoming_config-lex_le p c = ground arith

-- Ports are compared by root, cost, switch and port, in this order, and a port is compared with a
-- message in the same way: `cmp_2_ports` is a total order on those four numbers.
pub cmp_2_ports_lem :
    (p q r : StpPort) (c : StpConfig)
    → (cmp_2_ports p q ≡ lex_le (vector p) (vector q))
      × (cmp_with_incoming_config p c ≡ lex_le (vector p) (config_vector c))
      × ((cmp_2_ports p q || cmp_2_ports q p) ≡ true)
      × (cmp_2_ports p q ≡ true → cmp_2_ports q r ≡ true → cmp_2_ports p r ≡ true)
      × (cmp_2_ports p q ≡ true → cmp_2_ports q p ≡ true → vector p ≡ vector q)
cmp_2_ports_lem p q r c =
    let pq = cmp_2_ports-lex_le p q in
    let qp = cmp_2_ports-lex_le q p in
    (
      pq,
      cmp_with_incoming_config-lex_le p c,
      rw (pq, qp) (lex_le_total (vector p) (vector q)),
      λ a b.
          cmp_2_ports-lex_le p r
          ∙ lex_le_trans (vector p) (vector q) (vector r) (sym pq ∙ a)
              (sym (cmp_2_ports-lex_le q r) ∙ b),
      λ a b. lex_le_antisym (vector p) (vector q) (sym pq ∙ a) (sym qp ∙ b),
    )

-- A port that is preferred has no greater root.
pub cmp_2_ports-root :
    (p q : StpPort) → cmp_2_ports p q ≡ true → p.designated_root ≤ q.designated_root
unfolding cmp_2_ports
cmp_2_ports-root p q h = ground arith
