-- ===== src/Nat.antt =====
-- Address translation, nat.c and include/nat.h of Computer Networks/pr4-网络地址转换实验. The routing table is
-- in a library of that program: `route` stands for it, and gives the address of the interface of the
-- entry that `longest_prefix_match` selects. A packet is the fields that are read or written; the two
-- checksums, that are computed anew from the rest, are left out. `none` is a fault.
pub mod Translate
pub mod Sweep
pub mod Reply
pub mod Timeout
mod Tests
use Prim.Native.Nat.{bit_xor}
use ucas_coursework.Prelude.{
  ℕ, zero, suc, ◌+◌, ◌-◌, Bool, true, false, Option, none, some, List, [], ◌∷◌, ◌++◌, ◌==◌, ltb,
  ◌&&◌, ◌||◌, not, if◌then◌else◌, update,
}
use ucas_coursework.Net.Tcp.{hash8}

pub record Packet : Type 0 where
  pub saddr : ℕ
  pub daddr : ℕ
  pub sport : ℕ
  pub dport : ℕ
  pub seq : ℕ
  pub ack : ℕ
  pub flags : ℕ
  pub protocol : ℕ

-- `struct nat_connection`
pub record Connection : Type 0 where
  pub internal_fin : Bool
  pub external_fin : Bool
  pub internal_seq_end : ℕ
  pub external_seq_end : ℕ
  pub internal_ack : ℕ
  pub external_ack : ℕ

-- `struct nat_mapping`
pub record Mapping : Type 0 where
  pub internal_ip : ℕ
  pub external_ip : ℕ
  pub internal_port : ℕ
  pub external_port : ℕ
  pub update_time : ℕ
  pub conn : Connection

-- `struct nat_table`; of an interface its address is used.
pub record NatTable : Type 0 where
  pub mapping_list : ℕ → List Mapping
  pub internal_iface : ℕ
  pub external_iface : ℕ
  pub assigned_ports : ℕ → Bool

-- `enum packet_dir`
pub data Direction : Type 0 where
  dir_in dir_out dir_invalid : Direction

-- The first of `n` ports from `port` on that is not assigned, or 0.
unfoldable pub find_port : ℕ → ℕ → (ℕ → Bool) → ℕ
find_port zero port assigned = 0
find_port (suc n) port assigned = elim (assigned port) [
  | true ↦ find_port n (port + 1) assigned
  | false ↦ port
]

-- From NAT_PORT_MIN to NAT_PORT_MAX.
unfoldable pub free_port : (ℕ → Bool) → ℕ
unfolding find_port
free_port assigned = find_port 11112 12345 assigned

-- The port, and the ports with it assigned.
unfoldable pub free_port_index_get : (ℕ → Bool) → ℕ × (ℕ → Bool)
unfolding free_port
free_port_index_get assigned =
    let port : ℕ = free_port assigned in
    (port, if port == 0 then assigned else update assigned port true)

unfoldable pub incoming : ℕ → NatTable → Packet → Direction
incoming src n p =
    if src == n.external_iface && p.daddr == n.external_iface then dir_in else dir_invalid

unfoldable pub from_inside : Option ℕ → ℕ → NatTable → Packet → Option Direction
unfolding incoming
from_inside none src n p = none
from_inside (some dst) src n p =
    some (if dst == n.external_iface then dir_out else incoming src n p)

unfoldable pub direction_from : Option ℕ → Option ℕ → NatTable → Packet → Option Direction
unfolding from_inside incoming
direction_from none dst n p = none
direction_from (some src) dst n p =
    if src == n.internal_iface then from_inside dst src n p else some (incoming src n p)

unfoldable pub get_packet_direction : (ℕ → Option ℕ) → NatTable → Packet → Option Direction
unfolding direction_from
get_packet_direction route n p = direction_from (route p.saddr) (route p.daddr) n p

unfoldable pub nat_table_init : ℕ → ℕ → NatTable
nat_table_init internal external = record {
  mapping_list = λ h. [];
  internal_iface = internal;
  external_iface = external;
  assigned_ports = λ port. false;
}

unfoldable pub nat_table_destroy : NatTable → NatTable
nat_table_destroy t = record t { mapping_list = λ h. [] }
