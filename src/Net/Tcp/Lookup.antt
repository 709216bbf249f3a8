-- ===== src/Net/Tcp/Lookup.antt =====
-- That the tables of tcp_sock.c of Computer Networks/pr11-网络传输机制实验三 bring a packet to the socket that
-- was hashed for it.
use ucas_coursework.Prelude.{
  ℕ, ◌≡◌, ◌≢◌, refl, ap, ◌∙◌, sym, Bool, true, false, none, some, List, ◌∷◌, ==_refl, Bool-cases,
  inl, inr, on_some, some_inj,
}
use ucas_coursework.Net.Tcp.{
  State, closed, listen, Sock, Tcp, Cb, Link, never, linked, stale, tcp_hash_function,
}
use ucas_coursework.Net.Tcp.Table.{
  find_sock, same_four, or_else, add_hash, add_to, add_head, hash_at, tcp_hash, if_unlinked,
  is_known, tcp_sock_lookup_established, tcp_sock_lookup_listen, tcp_sock_lookup,
}
use ucas_coursework.Net.Tcp.States.{add_to-socks}
use ucas_coursework.Net.Tcp.Process.{tcp_process, handle_tcp_cb}

-- The packets for a connection.
pub record IsFor (cb : Cb) (s : Sock) : Type 0 where
  pub to_address : cb.daddr ≡ s.sip
  pub from_address : cb.saddr ≡ s.dip
  pub to_port : cb.dport ≡ s.sport
  pub from_port : cb.sport ≡ s.dport

add_to-table :
    (state : State) (a : ℕ) (s : Sock) (t : Tcp)
    → state ≢ listen
    → (add_to state a s t).established_table
      ≡ add_head (tcp_hash_function s.sip s.dip s.sport s.dport) a t.established_table
add_to-table listen a s t h = absurd (h refl)
add_to-table closed a s t h = refl
add_to-table state a s t h = refl

pub same_four_self : (s : Sock) → same_four s.sip s.dip s.sport s.dport s ≡ true
same_four_self s = rw (==_refl s.sip, ==_refl s.dip, ==_refl s.sport, ==_refl s.dport) refl

find-head :
    (test : Sock → Bool) (socks : ℕ → Sock) (a : ℕ) (others : List ℕ)
    → test (socks a) ≡ true
    → find_sock test socks (a ∷ others) ≡ some a
find-head test socks a others e = rw e refl

add_head-at : (h a : ℕ) (table : ℕ → List ℕ) → add_head h a table h ≡ a ∷ table h
add_head-at h a table = rw (==_refl h) refl

-- The socket is at the front of its bucket.
bucket :
    (a h : ℕ) (t : Tcp) (state : State)
    → state ≢ listen
    → let s = t.socks a in
      h ≡ tcp_hash_function s.sip s.dip s.sport s.dport
      → (add_to state a s t).established_table h ≡ a ∷ t.established_table h
bucket a h t state ne e =
    ap (λ f. f h) (add_to-table state a (t.socks a) t ne)
    ∙ rw (sym e) (add_head-at h a t.established_table)

lookup-add_hash :
    (a : ℕ) (t : Tcp)
    → (t.socks a).state ≢ listen
    → let s = t.socks a in
      tcp_sock_lookup_established s.sip s.dip s.sport s.dport (add_hash a t) ≡ some a
unfolding tcp_sock_lookup_established add_hash
lookup-add_hash a t ne =
    let s = t.socks a in
    let test = same_four s.sip s.dip s.sport s.dport in
    let h : ℕ = tcp_hash_function s.sip s.dip s.sport s.dport in
    let socks' = (add_hash a t).socks in
    let hit : test (socks' a) ≡ true =
      rw (add_to-socks s.state a s t, ==_refl a) (same_four_self s) in
    ap (find_sock test socks') (bucket a h t s.state ne refl)
    ∙ find-head test socks' a (t.established_table h) hit

-- What is done with the packet of a connection once its socket is found
pub handle-established :
    (iss a : ℕ) (cb : Cb) (t : Tcp)
    → tcp_sock_lookup_established cb.daddr cb.saddr cb.dport cb.sport t ≡ some a
    → handle_tcp_cb iss cb t ≡ tcp_process iss a cb t
unfolding handle_tcp_cb tcp_sock_lookup
handle-established iss a cb t found =
    ap (λ o. on_some (λ b. tcp_process iss b cb t) (or_else o (tcp_sock_lookup_listen cb.dport t)))
      found

-- The same for a packet of no connection, at a port where a socket listens
pub handle-listen :
    (iss a : ℕ) (cb : Cb) (t : Tcp)
    → tcp_sock_lookup_established cb.daddr cb.saddr cb.dport cb.sport t ≡ none
    → tcp_sock_lookup_listen cb.dport t ≡ some a
    → handle_tcp_cb iss cb t ≡ tcp_process iss a cb t
unfolding handle_tcp_cb tcp_sock_lookup
handle-listen iss a cb t missing listens =
    ap (λ o. on_some (λ b. tcp_process iss b cb t) (or_else o (tcp_sock_lookup_listen cb.dport t)))
      missing
    ∙ ap (on_some (λ b. tcp_process iss b cb t)) listens

-- The lookup still finds the socket where its numbers and the table are as `add_hash` left them.
pub lookup-front :
    (a : ℕ) (t t' : Tcp)
    → (t.socks a).state ≢ listen
    → t'.established_table ≡ (add_hash a t).established_table
    → let s = t.socks a in
      same_four s.sip s.dip s.sport s.dport (t'.socks a) ≡ true
      → tcp_sock_lookup_established s.sip s.dip s.sport s.dport t' ≡ some a
unfolding tcp_sock_lookup_established add_hash
lookup-front a t t' ne tables same =
    let s = t.socks a in
    let test = same_four s.sip s.dip s.sport s.dport in
    let h : ℕ = tcp_hash_function s.sip s.dip s.sport s.dport in
    ap (λ f. find_sock test t'.socks (f h)) tables
    ∙ ap (find_sock test t'.socks) (bucket a h t s.state ne refl)
    ∙ find-head test t'.socks a (t.established_table h) same

unlinked-true :
    (l : Link) (a : ℕ) (t t' : Tcp)
    → if_unlinked {A = Bool × Tcp} l (true, add_hash a t) ≡ some (true, t')
    → t' ≡ add_hash a t
unlinked-true linked a t t' e = absurd cc
unlinked-true never a t t' e = sym (ap (λ p. p.1) (some_inj e))
unlinked-true stale a t t' e = sym (ap (λ p. p.1) (some_inj e))

hash_at-true :
    (state : State) (a : ℕ) (t t' : Tcp) → hash_at state a t ≡ some (true, t') → t' ≡ add_hash a t
unfolding hash_at
hash_at-true closed a t t' e = let wrong : false ≡ true = ap (λ p. p.0) (some_inj e) in absurd cc
hash_at-true listen a t t' e = unlinked-true (t.socks a).hash_link a t t' e
hash_at-true state a t t' e = elim (Bool-cases (is_known a t)) [
  | inl known ↦ let wrong : false ≡ true = ap (λ p. p.0) (some_inj (rw known at e)) in absurd cc
  | inr new ↦ unlinked-true (t.socks a).hash_link a t t' (rw new at e)
]

-- Where `tcp_hash` took a socket that does not listen, a packet with its four numbers is processed for
-- that socket, whatever other sockets the tables hold.
pub tcp_hash-handle :
    (iss a : ℕ) (cb : Cb) (t t' : Tcp)
    → (t.socks a).state ≢ listen
    → tcp_hash a t ≡ some (true, t')
    → IsFor cb (t.socks a)
    → handle_tcp_cb iss cb t' ≡ tcp_process iss a cb t'
unfolding tcp_hash
tcp_hash-handle iss a cb t t' ne e for_a =
    let same : t' ≡ add_hash a t = hash_at-true (t.socks a).state a t t' e in
    let found : tcp_sock_lookup_established cb.daddr cb.saddr cb.dport cb.sport t' ≡ some a =
      rw (same, for_a.to_address, for_a.from_address, for_a.to_port, for_a.from_port)
        (lookup-add_hash a t ne) in
    handle-established iss a cb t' found
