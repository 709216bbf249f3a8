-- ===== src/Mospf/Daemon.antt =====
-- The handlers and the rounds of the threads of mospf_daemon.c, Computer Networks/pr6-网络路由实验二. `random n`
-- is what the n-th call of `rand` in a step returns. A port is named by its place in the list.
use Prim.Native.Nat.{bit_and}
use ucas_coursework.Prelude.{
  ℕ, suc, ◌+◌, ◌-◌, ◌*◌, ◌%◌, ◌^◌, Bool, true, false, not, ◌||◌, Option, none, some, on_some, List,
  [], ◌∷◌, ◌++◌, ◌==◌, ltb, if◌then◌else◌, get_or, get_elem?, length, set, drop, replicate,
}
use ucas_coursework.Net.Types.{Iface, overwrite}
use ucas_coursework.Net.Ip.{be16, be32}
use ucas_coursework.Net.Frames.{ip_init_hdr}
use ucas_coursework.Mospf.{Lsa, Nbr, Port, Mospf, Out, direct, by_arp}
use ucas_coursework.Mospf.Message.{
  mospf_init_hdr, mospf_init_hello, mospf_init_lsu, lsa_bytes, hdr_at, mospf_checksum, read_lsas,
}
use ucas_coursework.Mospf.Database.{init_mospf_db, learn}

-- The first loop of `lsu_update`: an interface without neighbours counts once.
unfoldable pub count_adv : List Port → ℕ
count_adv [] = 0
count_adv (p ∷ ports) = (if length p.nbr_list == 0 then 1 else length p.nbr_list) + count_adv ports

abbrev pub nbr_lsa : Nbr → Lsa
nbr_lsa n = record { subnet = bit_and n.nbr_mask n.nbr_ip; mask = n.nbr_mask; rid = n.nbr_id }

abbrev pub net_lsa : Iface → Lsa
net_lsa i = record { subnet = bit_and i.ip i.mask; mask = i.mask; rid = 0 }

unfoldable pub nbr_lsas : List Nbr → List Lsa
nbr_lsas [] = []
nbr_lsas (n ∷ nbrs) = nbr_lsa n ∷ nbr_lsas nbrs

-- The second loop: what is written to `lsa`, from its first element on.
unfoldable pub fill_lsa : List Port → List Lsa
unfolding nbr_lsas
fill_lsa [] = []
fill_lsa (p ∷ ports) =
    (if length p.nbr_list == 0 then net_lsa p.iface ∷ [] else nbr_lsas p.nbr_list) ++ fill_lsa ports

-- The packet for one neighbour, of 58 bytes and 12 for each element. The Ethernet type and the
-- destination are left to `iface_send_packet_by_arp`. (The source counts the bytes in an `int`, which is
-- taken to be wide enough.)
unfoldable pub lsu_packet : ℕ → ℕ → Mospf → ℕ → List Lsa → Iface → Nbr → List ℕ
unfolding ip_init_hdr mospf_init_hdr mospf_init_lsu lsa_bytes
lsu_packet id sequence_num m nadv lsa iface nbr =
    replicate 6 0
    ++ (iface.mac
        ++ (0
            ∷ 0
            ∷ (ip_init_hdr id iface.ip nbr.nbr_ip (44 + nadv * 12) 90
                ++ (mospf_init_hdr 4 16 m.router_id m.area_id
                    ++ (mospf_init_lsu sequence_num nadv ++ lsa_bytes lsa)))))

-- The third loop, from the `k`-th packet on: each has a sequence number of its own.
unfoldable pub send_nbrs : (ℕ → ℕ) → ℕ → Mospf → ℕ → List Lsa → Iface → List Nbr → List Out
unfolding lsu_packet
send_nbrs random k m nadv lsa iface [] = []
send_nbrs random k m nadv lsa iface (nbr ∷ nbrs) =
    by_arp iface nbr.nbr_ip
      (lsu_packet (random k) ((m.sequence_num + k) % 2 ^ 16) m nadv lsa iface nbr) (58 + nadv * 12)
    ∷ send_nbrs random (suc k) m nadv lsa iface nbrs

unfoldable pub send_ports : (ℕ → ℕ) → ℕ → Mospf → ℕ → List Lsa → List Port → List Out
unfolding send_nbrs
send_ports random k m nadv lsa [] = []
send_ports random k m nadv lsa (p ∷ ports) =
    send_nbrs random k m nadv lsa p.iface p.nbr_list
    ++ send_ports random (k + length p.nbr_list) m nadv lsa ports

unfoldable pub lsu_update : (ℕ → ℕ) → Mospf → Mospf × List Out
unfolding count_adv fill_lsa send_ports
lsu_update random m =
    let nadv : ℕ = count_adv m.iface_list in
    let lsa : List Lsa = if nadv == 0 then [] else fill_lsa m.iface_list in
    let sent : List Out = send_ports random 0 m nadv lsa m.iface_list in
    (record m { sequence_num = (m.sequence_num + length sent) % 2 ^ 16 }, sent)

unfoldable pub init_ifaces : List Port → List Port
init_ifaces [] = []
init_ifaces (p ∷ ports) = record p { helloint = 5; nbr_list = [] } ∷ init_ifaces ports

-- `none` where there is no interface.
unfoldable pub mospf_init : Mospf → Option Mospf
unfolding init_ifaces init_mospf_db
mospf_init m = init_from (get_elem? m.iface_list 0)
  where
    init_from : Option Port → Option Mospf
    init_from none = none
    init_from (some p) = some (record m {
      area_id = 0;
      router_id = p.iface.ip;
      sequence_num = 0;
      lsuint = 30;
      iface_list = init_ifaces m.iface_list;
      mospf_db = init_mospf_db;
    })

-- The IP header of the hello, whose TTL is set to 1 after its checksum was computed.
unfoldable pub hello_packet : ℕ → Mospf → Iface → List ℕ
unfolding ip_init_hdr mospf_init_hdr mospf_init_hello
hello_packet id m iface =
    1
    ∷ 0
    ∷ 94
    ∷ 0
    ∷ 0
    ∷ 5
    ∷ (iface.mac
        ++ (8
            ∷ 0
            ∷ (set (ip_init_hdr id iface.ip 0xe0000005 44 90) 8 1
                ++ (mospf_init_hdr 1 16 m.router_id 0 ++ mospf_init_hello iface.mask))))

-- One round of `sending_mospf_hello_thread`
unfoldable pub send_hellos : (ℕ → ℕ) → ℕ → Mospf → List Port → List Out
unfolding hello_packet
send_hellos random k m [] = []
send_hellos random k m (p ∷ ports) =
    direct p.iface (hello_packet (random k) m p.iface) 58 ∷ send_hellos random (suc k) m ports

-- One round of `checking_nbr_thread`: the neighbours that stay, and whether one was deleted
unfoldable pub age_nbrs : List Nbr → List Nbr × Bool
age_nbrs [] = ([], false)
age_nbrs (n ∷ nbrs) =
    let (rest, found) = age_nbrs nbrs in
    if n.alive == 0 then (rest, true) else (record n { alive = n.alive - 1 } ∷ rest, found)

unfoldable pub age_ports : List Port → List Port × Bool
unfolding age_nbrs
age_ports [] = ([], false)
age_ports (p ∷ ports) =
    let (nbrs, found) = age_nbrs p.nbr_list in
    let (rest, more) = age_ports ports in (record p { nbr_list = nbrs } ∷ rest, found || more)

unfoldable pub check_nbrs : (ℕ → ℕ) → Mospf → Mospf × List Out
unfolding age_ports lsu_update
check_nbrs random m =
    let (ports, found) = age_ports m.iface_list in
    let aged : Mospf = record m { iface_list = ports } in
    if found then lsu_update random aged else (aged, [])

-- The search of `handle_mospf_hello`, with the write to `alive` of the entry that it finds
unfoldable pub refresh : ℕ → ℕ → List Nbr → Option (List Nbr)
refresh rid alive [] = none
refresh rid alive (n ∷ nbrs) =
    let rest = on_some (λ r. some (n ∷ r)) (refresh rid alive nbrs) in
    if n.nbr_id == rid then some (record n { alive = alive } ∷ nbrs) else rest

abbrev pub add_nbr : Nbr → Port → Port
add_nbr n p = record p { num_nbr = p.num_nbr + 1; nbr_list = p.nbr_list ++ (n ∷ []) }

abbrev pub greet_by : (ℕ → ℕ) → ℕ → Port → Nbr → Mospf → Option (List Nbr) → Mospf × List Out
greet_by random i p n m none =
    lsu_update random (record m { iface_list = set m.iface_list i (add_nbr n p) })
greet_by random i p n m (some nbrs) =
    (record m { iface_list = set m.iface_list i (record p { nbr_list = nbrs }) }, [])

-- `handle_mospf_hello` for a packet that came in at the port `p`, the `i`-th
unfoldable pub handle_mospf_hello : (ℕ → ℕ) → ℕ → Port → List ℕ → Mospf → Mospf × List Out
unfolding be16 be32 refresh lsu_update
handle_mospf_hello random i p packet m =
    let at : ℕ = hdr_at packet in
    let alive : ℕ = 3 * be16 (at + 20) packet % 256 in
    let n : Nbr = record {
      nbr_id = be32 (at + 4) packet;
      nbr_ip = be32 26 packet;
      nbr_mask = be32 (at + 16) packet;
      alive = alive;
    } in
    greet_by random i p n m (refresh n.nbr_id alive p.nbr_list)

-- The forwarding of a message: the buffer is written anew for each neighbour of a port. What
-- `iface_send_packet_by_arp` writes into its Ethernet header in between it writes again the next time.
unfoldable pub forward_nbrs : (ℕ → ℕ) → ℕ → Iface → ℕ → List ℕ → List Nbr → List Out
unfolding ip_init_hdr overwrite be16 be32
forward_nbrs random k iface len pkt [] = []
forward_nbrs random k iface len pkt (nbr ∷ nbrs) =
    let header : List ℕ =
      ip_init_hdr (random k) (be32 26 pkt) nbr.nbr_ip (be16 16 pkt) (get_or pkt 23 0) in
    let next : List ℕ = overwrite 14 header (overwrite 6 iface.mac pkt) in
    by_arp iface nbr.nbr_ip next len ∷ forward_nbrs random (suc k) iface len next nbrs

unfoldable pub forward_ports : (ℕ → ℕ) → ℕ → Iface → ℕ → List ℕ → List Port → List Out
unfolding forward_nbrs
forward_ports random k iface len packet [] = []
forward_ports random k iface len packet (p ∷ ports) =
    let skip = forward_ports random k iface len packet ports in
    let go =
      forward_nbrs random k p.iface len packet p.nbr_list
      ++ forward_ports random (k + length p.nbr_list) iface len packet ports in
    if p.iface.index == iface.index then skip else go

-- The TTL of the message, a byte, is two bytes behind the sequence number.
unfoldable pub flood : (ℕ → ℕ) → Iface → List ℕ → ℕ → List Port → List Out
unfolding forward_ports
flood random iface packet len ports =
    let ttl_at : ℕ = hdr_at packet + 18 in
    let ttl : ℕ = (get_or packet ttl_at 0 + 255) % 256 in
    if ttl == 0 then [] else forward_ports random 0 iface len (set packet ttl_at ttl) ports

-- `none` is a read past the end of the packet. `nadv` is signed: a negative one stands for no elements.
unfoldable pub handle_mospf_lsu : (ℕ → ℕ) → Iface → List ℕ → ℕ → Mospf → Option (Mospf × List Out)
unfolding be16 be32 learn read_lsas flood
handle_mospf_lsu random iface packet len m =
    let at : ℕ = hdr_at packet in
    let nadv : ℕ = be32 (at + 20) packet in
    let array : Option (List Lsa) =
      read_lsas (if ltb nadv (2 ^ 31) then nadv else 0) (drop (at + 24) packet) in
    on_some (λ db. some (record m { mospf_db = db }, flood random iface packet len m.iface_list))
      (learn m.router_id (be32 (at + 4) packet) (be16 (at + 16) packet) array m.mospf_db)

-- A packet that is for nobody, or whose type is unknown, is only reported.
unfoldable pub handle_mospf_packet :
    (ℕ → ℕ) → ℕ → Port → List ℕ → ℕ → Mospf → Option (Mospf × List Out)
unfolding be32 mospf_checksum handle_mospf_hello handle_mospf_lsu
handle_mospf_packet random i p packet len m =
    let at : ℕ = hdr_at packet in
    let kind : ℕ = get_or packet (at + 1) 0 in
    let sum : ℕ = get_or packet (at + 12) 0 + 256 * get_or packet (at + 13) 0 in
    if not (get_or packet at 0 == 2)
    then some (m, [])
    else if not (sum == mospf_checksum packet)
    then some (m, [])
    else if not (be32 (at + 8) packet == m.area_id)
    then some (m, [])
    else if kind == 1
    then some (handle_mospf_hello random i p packet m)
    else if kind == 4
    then handle_mospf_lsu random p.iface packet len m
    else some (m, [])
