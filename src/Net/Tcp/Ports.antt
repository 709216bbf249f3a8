-- ===== src/Net/Tcp/Ports.antt =====
-- What the loop of `tcp_port_in_use` of tcp_sock.c of Computer Networks/pr11-网络传输机制实验三 finds.
use ucas_coursework.Prelude.{
  ℕ, ◌≡◌, ◌≢◌, refl, ap, suc, zero, true, false, none, some, List, [], ◌∷◌, arith, ◌==◌, All,
  ==_refl,
}
use ucas_coursework.Net.Tcp.{Sock, Tcp, never, tcp_hash_function, modify_sock}
use ucas_coursework.Net.Tcp.Table.{
  find_sock, misread_sport, found, upper_half, take_port, add_bind, tcp_port_in_use, first_free,
  tcp_get_port, tcp_sock_set_sport, tcp_bind_hash,
}
use ucas_coursework.Net.Tcp.Api.{tcp_sock_bind}

-- No socket of the bucket of a port is a child, as no child is ever bound.
abbrev pub Parentless : ℕ → Tcp → Type 0
Parentless port t =
    All (λ a. (t.socks a).parent ≡ none) (t.bind_table (tcp_hash_function 0 0 port 0))

nothing_found :
    (port : ℕ) (socks : ℕ → Sock) (bucket : List ℕ)
    → port ≢ 0
    → All (λ a. (socks a).parent ≡ none) bucket
    → found (find_sock (λ s. misread_sport s == port) socks bucket) ≡ false
unfolding found misread_sport
nothing_found port socks [] h all = refl
nothing_found port socks (a ∷ others) h all =
    let zero_read : misread_sport (socks a) ≡ 0 = ap upper_half all.0 in
    let no : (0 == port) ≡ false = ground arith in
    rw (zero_read, no) (nothing_found port socks others h all.1)

tcp_port_in_use-false :
    (port : ℕ) (t : Tcp) → port ≢ 0 → Parentless port t → tcp_port_in_use port t ≡ false
unfolding tcp_port_in_use
tcp_port_in_use-false port t h p =
    nothing_found port t.socks (t.bind_table (tcp_hash_function 0 0 port 0)) h p

first_free-first :
    (n port : ℕ) (t : Tcp) → tcp_port_in_use port t ≡ false → first_free (suc n) port t ≡ port
unfolding first_free
first_free-first n port t free = rw (free, first_free) refl

tcp_get_port-first : (t : Tcp) → Parentless 12345 t → tcp_get_port t ≡ 12345
unfolding tcp_get_port
tcp_get_port-first t p =
    first_free-first 11110 12345 t (tcp_port_in_use-false 12345 t (λ e. omega arith) p)

-- Where no socket bound to a port is a child, `tcp_sock_bind` of a socket that is not bound succeeds at
-- the port, and a socket `other` that had the port keeps it: the port is used twice.
pub tcp_sock_bind-twice :
    (a other port : ℕ) (t : Tcp)
    → port ≢ 0
    → a ≢ other
    → Parentless port t
    → (t.socks a).bind_link ≡ never
    → (t.socks other).sport ≡ port
    → (t' : Tcp) × (tcp_sock_bind a port t ≡ some (true, t'))
      × ((t'.socks a).sport ≡ port)
      × ((t'.socks other).sport ≡ port)
unfolding tcp_sock_bind tcp_sock_set_sport take_port tcp_bind_hash add_bind
tcp_sock_bind-twice a other zero t h apart p free used = absurd (h refl)
tcp_sock_bind-twice a other (suc n) t h apart p free used =
    let free_port = tcp_port_in_use-false (suc n) t h p in
    let not_a : (other == a) ≡ false = ground arith in
    (
      add_bind a (modify_sock a (λ s. record s { sport = suc n }) t),
      rw (free_port, ==_refl a, free) refl,
      rw (==_refl a) refl,
      rw not_a used,
    )
