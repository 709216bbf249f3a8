-- ===== src/Stp.antt =====
-- stp.c of Computer Networks/pr3-生成树机制实验: a switch of the spanning tree protocol. The operations hold
-- the mutex of the switch, so each is one step. A port is named by its index in the array; the fields
-- of a message are taken in host byte order. Costs are below 2 ^ 31, where the signed and unsigned
-- comparisons of the source agree.
pub mod Order
pub mod Config
pub mod Settle
mod Tests
use Prim.Native.Nat.{bit_or}
use ucas_coursework.Prelude.{
  ℕ, zero, suc, ◌+◌, ◌*◌, ◌%◌, ◌^◌, Bool, true, false, Option, none, some, List, [], ◌∷◌, ◌++◌,
  ◌==◌, ltb, leb, ◌&&◌, ◌||◌, not, if◌then◌else◌, set, get_elem?,
}

-- `stp_port_t`
pub record StpPort : Type 0 where
  pub port_id : ℕ
  pub path_cost : ℕ
  pub designated_root : ℕ
  pub designated_switch : ℕ
  pub designated_port : ℕ
  pub designated_cost : ℕ

-- `stp_t`; the hello timer is on or off.
pub record Stp : Type 0 where
  pub switch_id : ℕ
  pub designated_root : ℕ
  pub root_path_cost : ℕ
  pub root_port : Option ℕ
  pub hello_timer : Bool
  pub ports : List StpPort

-- `struct stp_config`, less the fields that are constants
pub record StpConfig : Type 0 where
  pub root_id : ℕ
  pub root_path_cost : ℕ
  pub switch_id : ℕ
  pub port_id : ℕ

-- The messages sent, each with the port by which it leaves.
abbrev pub Messages : Type 0
Messages = List (ℕ × StpConfig)

unfoldable pub stp_is_root_switch : Stp → Bool
stp_is_root_switch stp = stp.designated_root == stp.switch_id

-- The identifier of the switch comes first.
unfoldable pub stp_port_is_designated : ℕ → StpPort → Bool
stp_port_is_designated switch_id p =
    p.designated_switch == switch_id && p.designated_port == p.port_id

abbrev pub has_root_port : Option ℕ → Bool
has_root_port none = false
has_root_port (some i) = true

unfoldable pub stp_port_send_config : Stp → StpPort → Messages
unfolding stp_is_root_switch
stp_port_send_config stp p =
    if not (stp_is_root_switch stp) && not (has_root_port stp.root_port)
    then []
    else (
      p.port_id,
      record {
        root_id = stp.designated_root;
        root_path_cost = stp.root_path_cost;
        switch_id = stp.switch_id;
        port_id = p.port_id;
      },
    )
      ∷ []

unfoldable pub send_loop : Stp → List StpPort → Messages
unfolding stp_port_is_designated stp_port_send_config
send_loop stp [] = []
send_loop stp (p ∷ ports) =
    (if stp_port_is_designated stp.switch_id p then stp_port_send_config stp p else [])
    ++ send_loop stp ports

unfoldable pub stp_send_config : Stp → Messages
unfolding send_loop
stp_send_config stp = send_loop stp stp.ports

-- The timer is started again.
unfoldable pub stp_handle_hello_timeout : Stp → Messages × Stp
unfolding stp_send_config
stp_handle_hello_timeout stp = (stp_send_config stp, record stp { hello_timer = true })

-- The fields of the switch that are read come first.
unfoldable pub stp_port_init : ℕ → ℕ → ℕ → StpPort → StpPort
stp_port_init designated_root switch_id root_path_cost p = record p {
  designated_root = designated_root;
  designated_switch = switch_id;
  designated_port = p.port_id;
  designated_cost = root_path_cost;
}

unfoldable pub cmp_with_incoming_config : StpPort → StpConfig → Bool
cmp_with_incoming_config p config =
    if not (p.designated_root == config.root_id)
    then leb p.designated_root config.root_id
    else if not (p.designated_cost == config.root_path_cost)
    then leb p.designated_cost config.root_path_cost
    else if not (p.designated_switch == config.switch_id)
    then leb p.designated_switch config.switch_id
    else if not (p.designated_port == config.port_id)
    then leb p.designated_port config.port_id
    else true

unfoldable pub cmp_2_ports : StpPort → StpPort → Bool
cmp_2_ports p0 p1 =
    if not (p0.designated_root == p1.designated_root)
    then leb p0.designated_root p1.designated_root
    else if not (p0.designated_cost == p1.designated_cost)
    then leb p0.designated_cost p1.designated_cost
    else if not (p0.designated_switch == p1.designated_switch)
    then leb p0.designated_switch p1.designated_switch
    else if not (p0.designated_port == p1.designated_port)
    then leb p0.designated_port p1.designated_port
    else true

-- `!root_port`, or the port is not behind it in the order
abbrev pub preferred : StpPort → Option (ℕ × StpPort) → Bool
preferred p none = true
preferred p (some (i, root_port)) = cmp_2_ports p root_port

-- The loop that looks for the root port, from the port of index `i` on.
unfoldable pub root_loop : ℕ → ℕ → Option (ℕ × StpPort) → List StpPort → Option (ℕ × StpPort)
unfolding stp_port_is_designated cmp_2_ports
root_loop switch_id i root_port [] = root_port
root_loop switch_id i root_port (p ∷ ports) =
    root_loop switch_id (i + 1)
      (if stp_port_is_designated switch_id p
        then root_port
        else if preferred p root_port
        then some (i, p)
        else root_port)
      ports

-- The port takes over what the message says.
unfoldable pub overwrite_port : StpConfig → StpPort → StpPort
overwrite_port config p = record p {
  designated_root = config.root_id;
  designated_switch = config.switch_id;
  designated_port = config.port_id;
  designated_cost = config.root_path_cost;
}

-- The switch follows its root port, or is the root. (The old `root_port` stays in that case.)
unfoldable pub update_switch : Option (ℕ × StpPort) → Stp → Stp
update_switch none stp = record stp { designated_root = stp.switch_id; root_path_cost = 0 }
update_switch (some (i, p)) stp = record stp {
  designated_root = p.designated_root;
  root_port = some i;
  root_path_cost = p.designated_cost + p.path_cost;
}

-- One round of the loop that updates the ports.
unfoldable pub update_port : ℕ → ℕ → ℕ → StpPort → StpPort
unfolding stp_port_is_designated
update_port switch_id root cost p =
    if stp_port_is_designated switch_id p
    then record p { designated_root = root; designated_cost = cost }
    else if ltb cost p.designated_cost
    then record p {
      designated_root = root;
      designated_cost = cost;
      designated_switch = switch_id;
      designated_port = p.port_id;
    }
    else p

unfoldable pub update_ports : ℕ → ℕ → ℕ → List StpPort → List StpPort
unfolding update_port
update_ports switch_id root cost [] = []
update_ports switch_id root cost (p ∷ ports) =
    update_port switch_id root cost p ∷ update_ports switch_id root cost ports

-- What follows where the message is better than what the port knew; `ports` are those with the port
-- overwritten.
unfoldable pub recompute : List StpPort → Stp → Messages × Stp
unfolding root_loop update_switch update_ports stp_is_root_switch stp_send_config
recompute ports stp =
    let s : Stp = update_switch (root_loop stp.switch_id 0 none ports) stp in
    let s' : Stp = record s {
      ports = update_ports s.switch_id s.designated_root s.root_path_cost ports;
      hello_timer = if stp_is_root_switch s then s.hello_timer else false;
    } in
    (stp_send_config s', s')

abbrev pub handle_at : ℕ → StpConfig → Stp → Option StpPort → Option (Messages × Stp)
handle_at i config stp none = none
handle_at i config stp (some p) =
    if not (cmp_with_incoming_config p config)
    then some (recompute (set stp.ports i (overwrite_port config p)) stp)
    else some (stp_port_send_config stp p, stp)

-- `none` where there is no port `i`.
unfoldable pub stp_handle_config_packet : ℕ → StpConfig → Stp → Option (Messages × Stp)
unfolding cmp_with_incoming_config overwrite_port recompute stp_port_send_config
stp_handle_config_packet i config stp = handle_at i config stp (get_elem? stp.ports i)

-- `mac_addr`, from the bytes of the address of the first interface
unfoldable pub mac_number : ℕ → List ℕ → ℕ
mac_number mac_addr [] = mac_addr
mac_number mac_addr (b ∷ mac) = mac_number (mac_addr * 256 % 2 ^ 64 + b) mac

-- The ports from the one of index `i` on, as many as there are interfaces left.
unfoldable pub init_ports : ℕ → ℕ → ℕ → List StpPort
unfolding stp_port_init
init_ports switch_id i zero = []
init_ports switch_id i (suc n) =
    stp_port_init switch_id switch_id 0 (record {
      port_id = bit_or (128 * 256) (i + 1);
      path_cost = 1;
      designated_root = 0;
      designated_switch = 0;
      designated_port = 0;
      designated_cost = 0;
    })
    ∷ init_ports switch_id (i + 1) n

-- `mac` is the address of the first interface and `n` the number of interfaces.
unfoldable pub stp_init : List ℕ → ℕ → Stp
unfolding mac_number init_ports
stp_init mac n =
    let switch_id : ℕ = bit_or (mac_number 0 mac) (32768 * 2 ^ 48) in
    record {
      switch_id = switch_id;
      designated_root = switch_id;
      root_path_cost = 0;
      root_port = none;
      hello_timer = true;
      ports = init_ports switch_id 0 n;
    }
