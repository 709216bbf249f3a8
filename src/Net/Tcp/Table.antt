-- ===== src/Net/Tcp/Table.antt =====
-- The hash tables and the reference counts of TCP sockets, tcp_sock.c of
-- Computer Networks/pr11-网络传输机制实验三. A node of a list is in one bucket at most, so that to delete it is
-- to take its socket out of every bucket.
use ucas_coursework.Prelude.{
  ℕ, zero, suc, ◌+◌, ◌-◌, ◌/◌, ◌%◌, ◌^◌, Bool, true, false, Option, none, some, List, [], ◌∷◌, ◌==◌,
  leb, ◌&&◌, if◌then◌else◌, update, on_some,
}
use ucas_coursework.Net.Tcp.{
  State, closed, listen, Link, linked, stale, Sock, Tcp, Cb, modify_sock, tcp_hash_function,
}

-- A list without a node: `list_delete_entry`
unfoldable pub unlink : ℕ → List ℕ → List ℕ
unlink a [] = []
unlink a (x ∷ xs) = let rest = unlink a xs in if x == a then rest else x ∷ rest

abbrev pub find_sock : (Sock → Bool) → (ℕ → Sock) → List ℕ → Option ℕ
find_sock test socks [] = none
find_sock test socks (a ∷ others) =
    let rest = find_sock test socks others in if test (socks a) then some a else rest

abbrev pub same_four : ℕ → ℕ → ℕ → ℕ → Sock → Bool
same_four saddr daddr sport dport s =
    saddr == s.sip && (daddr == s.dip && (sport == s.sport && dport == s.dport))

-- A socket with a count below one is released; below zero the count of the source is negative.
unfoldable pub free_tcp_sock : ℕ → Tcp → Tcp
free_tcp_sock a t =
    modify_sock a
      (λ s. record s { ref_cnt = s.ref_cnt - 1; freed = if leb s.ref_cnt 1 then true else s.freed })
      t

unfoldable pub tcp_sock_lookup_established : ℕ → ℕ → ℕ → ℕ → Tcp → Option ℕ
unfolding tcp_hash_function
tcp_sock_lookup_established saddr daddr sport dport t =
    find_sock (same_four saddr daddr sport dport) t.socks
      (t.established_table (tcp_hash_function saddr daddr sport dport))

unfoldable pub tcp_sock_lookup_listen : ℕ → Tcp → Option ℕ
unfolding tcp_hash_function
tcp_sock_lookup_listen sport t =
    find_sock (λ s. s.sport == sport) t.socks (t.listen_table (tcp_hash_function 0 0 sport 0))

abbrev pub or_else {ℓ} : {A : Type ℓ} → Option A → Option A → Option A
or_else none other = other
or_else (some a) other = some a

-- `none` is NULL.
unfoldable pub tcp_sock_lookup : Cb → Tcp → Option ℕ
unfolding tcp_sock_lookup_established tcp_sock_lookup_listen
tcp_sock_lookup cb t =
    or_else (tcp_sock_lookup_established cb.daddr cb.saddr cb.dport cb.sport t)
      (tcp_sock_lookup_listen cb.dport t)

-- A node at the head of a bucket.
abbrev pub add_head : ℕ → ℕ → (ℕ → List ℕ) → ℕ → List ℕ
add_head h a table = update table h (a ∷ table h)

-- A node that is in a list must not be added to another.
abbrev pub if_unlinked {ℓ} : {A : Type ℓ} → Link → A → Option A
if_unlinked linked x = none
if_unlinked link x = some x

-- `list_empty` of a node holds where the node points to itself, as no node does that was never set or
-- was in a list once; to take it out of a list is a fault.
abbrev pub if_linked {ℓ} : {A : Type ℓ} → Link → A → Option A
if_linked linked x = some x
if_linked link x = none

unfoldable pub add_bind : ℕ → Tcp → Tcp
unfolding tcp_hash_function
add_bind a t =
    modify_sock a (λ s. record s { bind_link = linked; ref_cnt = s.ref_cnt + 1 })
      (record t {
        bind_table = add_head (tcp_hash_function 0 0 (t.socks a).sport 0) a t.bind_table;
      })

unfoldable pub tcp_bind_hash : ℕ → Tcp → Option Tcp
unfolding add_bind
tcp_bind_hash a t = if_unlinked (t.socks a).bind_link (add_bind a t)

unfoldable pub tcp_bind_unhash : ℕ → Tcp → Option Tcp
unfolding unlink free_tcp_sock
tcp_bind_unhash a t = if_linked (t.socks a).bind_link (
    free_tcp_sock a (
      modify_sock a (λ s. record s { bind_link = stale })
        (record t { bind_table = λ h. unlink a (t.bind_table h) })))

unfoldable pub tcp_unhash : ℕ → Tcp → Option Tcp
unfolding unlink free_tcp_sock
tcp_unhash a t = if_linked (t.socks a).hash_link (
    free_tcp_sock a (
      modify_sock a (λ s. record s { hash_link = stale })
        (record t {
          established_table = λ h. unlink a (t.established_table h);
          listen_table = λ h. unlink a (t.listen_table h);
        })))

-- The loop goes through a list of `bind_hash_list` nodes with `hash_list` as the member: on a machine
-- of 64 bits `sk_sport` is read 16 bytes behind its place, from the upper half of `parent`.
abbrev pub upper_half : Option ℕ → ℕ
upper_half none = 0
upper_half (some p) = p / 2 ^ 32 % 2 ^ 16

unfoldable pub misread_sport : Sock → ℕ
misread_sport s = upper_half s.parent

unfoldable pub found : Option ℕ → Bool
found none = false
found (some a) = true

unfoldable pub tcp_port_in_use : ℕ → Tcp → Bool
unfolding tcp_hash_function misread_sport found
tcp_port_in_use sport t = found (
    find_sock (λ s. misread_sport s == sport) t.socks
      (t.bind_table (tcp_hash_function 0 0 sport 0)))

-- The first of `n` ports from `port` on that is not in use, or 0.
unfoldable pub first_free : ℕ → ℕ → Tcp → ℕ
unfolding tcp_port_in_use
first_free zero port t = 0
first_free (suc n) port t = elim (tcp_port_in_use port t) [
  | true ↦ first_free n (port + 1) t
  | false ↦ port
]

-- From PORT_MIN to below PORT_MAX.
unfoldable pub tcp_get_port : Tcp → ℕ
unfolding first_free
tcp_get_port t = first_free 11111 12345 t

-- The result is 0 for true and -1 for false.
unfoldable pub take_port : ℕ → ℕ → Tcp → Option (Bool × Tcp)
unfolding tcp_bind_hash
take_port a port t =
    on_some (λ t'. some (true, t'))
      (tcp_bind_hash a (modify_sock a (λ s. record s { sport = port }) t))

-- Port 0 asks for any port.
unfoldable pub tcp_sock_set_sport : ℕ → ℕ → Tcp → Option (Bool × Tcp)
unfolding tcp_port_in_use tcp_get_port take_port
tcp_sock_set_sport a zero t =
    let port : ℕ = tcp_get_port t in if port == 0 then some (false, t) else take_port a port t
tcp_sock_set_sport a (suc n) t =
    if tcp_port_in_use (suc n) t then some (false, t) else take_port a (suc n) t

-- The list that a socket that is not closed goes to.
abbrev pub add_to : State → ℕ → Sock → Tcp → Tcp
add_to listen a s t = record t {
  listen_table = add_head (tcp_hash_function 0 0 s.sport 0) a t.listen_table;
}
add_to state a s t = record t {
  established_table =
      add_head (tcp_hash_function s.sip s.dip s.sport s.dport) a t.established_table;
}

unfoldable pub add_hash : ℕ → Tcp → Tcp
unfolding tcp_hash_function
add_hash a t =
    modify_sock a (λ s. record s { hash_link = linked; ref_cnt = s.ref_cnt + 1 })
      (add_to (t.socks a).state a (t.socks a) t)

-- Whether the established table holds a socket of the same four numbers.
unfoldable pub is_known : ℕ → Tcp → Bool
unfolding tcp_sock_lookup_established found
is_known a t =
    let s = t.socks a in found (tcp_sock_lookup_established s.sip s.dip s.sport s.dport t)

-- The result is 0 for true and -1 for false.
unfoldable pub hash_at : State → ℕ → Tcp → Option (Bool × Tcp)
unfolding add_hash is_known
hash_at closed a t = some (false, t)
hash_at listen a t = if_unlinked (t.socks a).hash_link (true, add_hash a t)
hash_at state a t =
    if is_known a t then some (false, t) else if_unlinked (t.socks a).hash_link (true, add_hash a t)

unfoldable pub tcp_hash : ℕ → Tcp → Option (Bool × Tcp)
unfolding hash_at
tcp_hash a t = hash_at (t.socks a).state a t
