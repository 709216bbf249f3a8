-- ===== src/Mospf.antt =====
-- The mOSPF daemon of Computer Networks/pr6-网络路由实验二: what include/mospf_nbr.h, include/mospf_database.h
-- and the fields of include/base.h declare. Its rtable.c, include/checksum.h, `ip_init_hdr` and
-- `longest_prefix_match` have the text of those of pr11-网络传输机制实验三. An operation is one step under
-- `mospf_lock`.
pub mod Message
pub mod Database
pub mod Daemon
pub mod Routes
pub mod Newest
pub mod Neighbours
pub mod Hello
pub mod Learnt
pub mod Links
pub mod Flood
pub mod Reach
pub mod Size
pub mod Sound
pub mod Lost
mod Tests
use ucas_coursework.Prelude.{ℕ, List, Option}
use ucas_coursework.Net.Types.{Iface}

-- `struct mospf_lsa`
pub record Lsa : Type 0 where
  pub subnet : ℕ
  pub mask : ℕ
  pub rid : ℕ

-- `mospf_db_entry_t`; `nadv` is the length of the array.
pub record DbEntry : Type 0 where
  pub rid : ℕ
  pub seq : ℕ
  pub array : List Lsa

-- `mospf_nbr_t`
pub record Nbr : Type 0 where
  pub nbr_id : ℕ
  pub nbr_ip : ℕ
  pub nbr_mask : ℕ
  pub alive : ℕ

-- `iface_info_t` with the fields that `DYNAMIC_ROUTING` adds
pub record Port : Type 0 where
  pub iface : Iface
  pub helloint : ℕ
  pub num_nbr : ℕ
  pub nbr_list : List Nbr

-- The list of interfaces and the routing fields of `ustack_t`, and `mospf_db`
pub record Mospf : Type 0 where
  pub iface_list : List Port
  pub area_id : ℕ
  pub router_id : ℕ
  pub sequence_num : ℕ
  pub lsuint : ℕ
  pub mospf_db : List DbEntry

-- The calls that send: `_iface_send_packet`, and `iface_send_packet_by_arp` with the address of the
-- next hop. The packet is the bytes at the time of the call.
pub data Out : Type 0 where
  direct : Iface → List ℕ → ℕ → Out
  by_arp : Iface → ℕ → List ℕ → ℕ → Out

-- `graph_t`; an interface that is `none` is NULL.
pub record GraphNode : Type 0 where
  pub rid : ℕ
  pub dist : ℕ
  pub send_iface : Option Iface
  pub gw : ℕ
  pub visited : ℕ
