-- ===== src/Net/Types.antt =====
-- What the parts of the network stack of Computer Networks/pr11-网络传输机制实验三 share: the interfaces of
-- include/base.h, frames as lists of bytes, and what the stack puts on the wire.
use ucas_coursework.Prelude.{ℕ, ◌+◌, List, [], ◌∷◌, set}

-- `iface_info_t`, as far as it is read
pub record Iface : Type 0 where
  pub index : ℕ
  pub mac : List ℕ
  pub ip : ℕ
  pub mask : ℕ

-- `memcpy(packet + a, bytes, length of bytes)` into a frame
unfoldable pub overwrite : ℕ → List ℕ → List ℕ → List ℕ
overwrite a [] packet = packet
overwrite a (b ∷ bytes) packet = overwrite (a + 1) bytes (set packet a b)

-- The calls that leave a component, in their order: `iface_send_packet`, `arp_send_request`,
-- `icmp_send_packet` with its type and code, and `handle_tcp_packet`. What they do in turn is not part
-- of the step that makes them.
pub data Sent : Type 0 where
  frame : Iface → List ℕ → ℕ → Sent
  arp_request : Iface → ℕ → Sent
  icmp : List ℕ → ℕ → ℕ → ℕ → Sent
  to_tcp : List ℕ → Sent
