-- ===== src/Nat/Translate.antt =====
-- `do_translation` and `nat_translate_packet` of nat.c, Computer Networks/pr4-网络地址转换实验.
use Prim.Native.Nat.{bit_xor}
use ucas_coursework.Prelude.{
  ℕ, Bool, true, false, Option, none, some, List, [], ◌∷◌, ◌++◌, ◌==◌, ltb, ◌&&◌, if◌then◌else◌,
  update,
}
use ucas_coursework.Net.Tcp.{hash8}
use ucas_coursework.Nat.{
  Packet, Connection, Mapping, NatTable, Direction, dir_in, dir_invalid, free_port_index_get,
  get_packet_direction,
}

-- The bucket of a server.
unfoldable pub nat_index : ℕ → ℕ → ℕ
unfolding hash8
nat_index srv_ip srv_port = bit_xor (hash8 4 srv_ip) (hash8 2 srv_port)

abbrev pub find_mapping : (Mapping → Bool) → List Mapping → Option Mapping
find_mapping test [] = none
find_mapping test (m ∷ ms) = let rest = find_mapping test ms in if test m then some m else rest

abbrev pub set_first : (Mapping → Bool) → Mapping → List Mapping → List Mapping
set_first test m' [] = []
set_first test m' (m ∷ ms) = let rest = set_first test m' ms in if test m then m' ∷ ms else m ∷ rest

abbrev pub delete_first : (Mapping → Bool) → List Mapping → List Mapping
delete_first test [] = []
delete_first test (m ∷ ms) = let rest = delete_first test ms in if test m then ms else m ∷ rest

abbrev pub to_mapping : Packet → Mapping → Bool
to_mapping p m = p.daddr == m.external_ip && p.dport == m.external_port

abbrev pub from_mapping : Packet → Mapping → Bool
from_mapping p m = p.saddr == m.internal_ip && p.sport == m.internal_port

-- `if (n > old) old = n`
abbrev pub raise : ℕ → ℕ → ℕ
raise n old = if ltb old n then n else old

unfoldable pub note_external : ℕ → Packet → Mapping → Mapping
note_external now p m = record m {
  update_time = now;
  conn = record m.conn {
    external_fin = if p.flags == 1 then true else m.conn.external_fin;
    external_seq_end = raise p.seq m.conn.external_seq_end;
    external_ack = raise p.ack m.conn.external_ack;
  };
}

unfoldable pub note_internal : ℕ → Packet → Mapping → Mapping
note_internal now p m = record m {
  update_time = now;
  conn = record m.conn {
    internal_fin = if p.flags == 1 then true else m.conn.internal_fin;
    internal_seq_end = raise p.seq m.conn.internal_seq_end;
    internal_ack = raise p.ack m.conn.internal_ack;
  };
}

abbrev pub new_connection : Connection
new_connection = record {
  internal_fin = false;
  external_fin = false;
  internal_seq_end = 0;
  external_seq_end = 0;
  internal_ack = 0;
  external_ack = 0;
}

-- The mapping of a connection that begins.
unfoldable pub new_mapping : ℕ → ℕ → ℕ → Packet → Mapping
unfolding note_internal
new_mapping now external_ip port p = note_internal now p (record {
  internal_ip = p.saddr;
  external_ip = external_ip;
  internal_port = p.sport;
  external_port = port;
  update_time = now;
  conn = new_connection;
})

-- A bucket with the mapping that a packet used: after a RST the mapping goes and its port is free.
unfoldable pub used_mapping : (Mapping → Bool) → ℕ → Packet → Mapping → NatTable → NatTable
used_mapping test h p m n =
    if p.flags == 4
    then record n {
      mapping_list = update n.mapping_list h (delete_first test (n.mapping_list h));
      assigned_ports = update n.assigned_ports m.external_port false;
    }
    else record n { mapping_list = update n.mapping_list h (set_first test m (n.mapping_list h)) }

-- The packet that is sent. A packet from outside without a mapping is sent as it is; behind the loop,
-- `nat_entry` is then no mapping, which a RST uses.
unfoldable pub translate_in :
    Option Mapping → ℕ → ℕ → NatTable → Packet → Option (Packet × NatTable)
unfolding note_external used_mapping
translate_in (some m) now h n p = some (
  record p { daddr = m.internal_ip; dport = m.internal_port },
  used_mapping (to_mapping p) h p (note_external now p m) n,
)
translate_in none now h n p = if p.flags == 4 then none else some (p, n)

unfoldable pub translate_out :
    Option Mapping → ℕ → ℕ → NatTable → Packet → Option (Packet × NatTable)
unfolding note_internal used_mapping free_port_index_get new_mapping
translate_out (some m) now h n p = some (
  record p { saddr = m.external_ip; sport = m.external_port },
  used_mapping (from_mapping p) h p (note_internal now p m) n,
)
translate_out none now h n p =
    let (port, assigned) = free_port_index_get n.assigned_ports in
    let m = new_mapping now n.external_iface port p in
    if p.flags == 4
    then none
    else some (
      record p { saddr = m.external_ip; sport = m.external_port },
      record n {
        mapping_list = update n.mapping_list h (n.mapping_list h ++ (m ∷ []));
        assigned_ports = assigned;
      },
    )

unfoldable pub do_translation : ℕ → Direction → NatTable → Packet → Option (Packet × NatTable)
unfolding nat_index translate_in translate_out
do_translation now dir_in n p =
    let h : ℕ = nat_index p.saddr p.sport in
    translate_in (find_mapping (to_mapping p) (n.mapping_list h)) now h n p
do_translation now dir n p =
    let h : ℕ = nat_index p.daddr p.dport in
    translate_out (find_mapping (from_mapping p) (n.mapping_list h)) now h n p

-- What becomes of a packet: an ICMP error is sent, it is dropped, or it is sent on.
pub data Verdict : Type 0 where
  refused dropped : Verdict
  forwarded : Packet → Verdict

abbrev pub forward : Option (Packet × NatTable) → Option (Verdict × NatTable)
forward none = none
forward (some (p, n)) = some (forwarded p, n)

unfoldable pub translate_at : Option Direction → ℕ → NatTable → Packet → Option (Verdict × NatTable)
unfolding do_translation
translate_at none now n p = none
translate_at (some dir_invalid) now n p = some (refused, n)
translate_at (some dir) now n p =
    let sent = forward (do_translation now dir n p) in
    if p.protocol == 6 then sent else some (dropped, n)

unfoldable pub nat_translate_packet :
    (ℕ → Option ℕ) → ℕ → NatTable → Packet → Option (Verdict × NatTable)
unfolding get_packet_direction translate_at
nat_translate_packet route now n p = translate_at (get_packet_direction route n p) now n p
