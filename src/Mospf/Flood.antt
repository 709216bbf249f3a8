-- ===== src/Mospf/Flood.antt =====
-- A link state message of mospf_daemon.c, Computer Networks/pr6-网络路由实验二, from the router that makes it to a
-- neighbour that reads it.
use ucas_coursework.Prelude.{
  ℕ, suc, ◌≢◌, ◌+◌, ◌*◌, ◌%◌, ◌^◌, ◌<◌, ◌≡◌, refl, sym, ap, ◌∙◌, true, false, inl, inr, some,
  on_some, List, [], ◌∷◌, ◌++◌, arith, ◌==◌, ==_ne, ==_iff, ltb, if◌then◌else◌, Bool-cases, get_or,
  drop, length, length-append, All,
}
use ucas_coursework.Net.Types.{Iface}
use ucas_coursework.Net.Ip.{be16, be32}
use ucas_coursework.Net.Frames.Exchange.{number, six}
use ucas_coursework.Mospf.{Lsa, DbEntry, Nbr, Port, Mospf, Out, by_arp, direct}
use ucas_coursework.Mospf.Message.{hdr_at, lsa_bytes, mospf_checksum, read_lsa, read_lsas}
use ucas_coursework.Mospf.Database.{learn}
use ucas_coursework.Mospf.Daemon.{
  count_adv, nbr_lsas, fill_lsa, lsu_packet, send_nbrs, send_ports, lsu_update, flood,
  handle_mospf_lsu, handle_mospf_packet,
}
use ucas_coursework.Mospf.Learnt.{Learnt, learn-Learnt}
use ucas_coursework.Mospf.Links.{links, fill_lsa-links}

-- The fields have 32 bits.
abbrev pub IsWords : Lsa → Type 0
IsWords a = (a.subnet < 2 ^ 32) × (a.mask < 2 ^ 32) × (a.rid < 2 ^ 32)

-- What was written is read back.
read_lsas-bytes :
    (lsas : List Lsa) → All IsWords lsas → read_lsas (length lsas) (lsa_bytes lsas) ≡ some lsas
unfolding read_lsas lsa_bytes
read_lsas-bytes [] h = refl
read_lsas-bytes (a ∷ lsas) h =
    let (s, k, r) = h.0 in
    let first : read_lsa (lsa_bytes (a ∷ lsas)) ≡ a = λ i. record {
      subnet = number a.subnet s i;
      mask = number a.mask k i;
      rid = number a.rid r i;
    } in
    let long : ltb (length (lsa_bytes (a ∷ lsas))) 12 ≡ false = ground arith in
    rw (long, read_lsas-bytes lsas h.1) (ap (λ x. some (x ∷ lsas)) first)

nbr_lsas-length : (nbrs : List Nbr) → length (nbr_lsas nbrs) ≡ length nbrs
unfolding nbr_lsas
nbr_lsas-length [] = refl
nbr_lsas-length (n ∷ nbrs) = ap suc (nbr_lsas-length nbrs)

-- The array that `lsu_update` allocates has just as many elements as it fills.
pub count_adv-length : (ports : List Port) → count_adv ports ≡ length (fill_lsa ports)
unfolding count_adv fill_lsa
count_adv-length [] = refl
count_adv-length (p ∷ ports) = elim (Bool-cases (length p.nbr_list == 0)) [
  | inl empty ↦ rw (empty, count_adv-length ports) (omega arith)
  | inr some_nbr ↦ rw some_nbr (
      omega (
        arith,
        length-append {0} (nbr_lsas p.nbr_list) (fill_lsa ports),
        nbr_lsas-length p.nbr_list,
        count_adv-length ports,
      ))
]

-- Another router of the same area that gets the packet, at whatever interface, has learnt that the router
-- of `m` is next to `lsa`, as of the number `seq`; nothing else of its state is changed.
abbrev pub Teaches : Mospf → ℕ → List Lsa → Out → Type 0
Teaches m seq lsa (direct iface packet len) = ⊥
Teaches m seq lsa (by_arp iface dst packet len) =
    (random : ℕ → ℕ) (i : ℕ) (p : Port) (m' : Mospf)
    → m'.area_id ≡ m.area_id
    → m.router_id ≢ m'.router_id
    → (db : List DbEntry) × (sent : List Out) × (handle_mospf_packet random i p packet len m'
        ≡ some (record m' { mospf_db = db }, sent))
      × Learnt m.router_id seq lsa m'.mospf_db db

-- What a packet says, read at the offsets of the handlers.
record Says (m : Mospf) (seq : ℕ) (lsa : List Lsa) (packet : List ℕ) : Type 0 where
  at : hdr_at packet ≡ 34
  version : get_or packet 34 0 ≡ 2
  kind : get_or packet 35 0 ≡ 4
  sum :
      (get_or packet (hdr_at packet + 12) 0 + 256 * get_or packet (hdr_at packet + 13) 0
        == mospf_checksum packet)
      ≡ true
  rid : be32 38 packet ≡ m.router_id
  aid : be32 42 packet ≡ m.area_id
  seq_read : be16 50 packet ≡ seq
  nadv : be32 54 packet ≡ length lsa
  array : drop 58 packet ≡ lsa_bytes lsa

module _ (id seq : ℕ) (m : Mospf) (lsa : List Lsa) (iface : Iface) (nbr : Nbr)
    (mac : length iface.mac ≡ 6) (rid : m.router_id < 2 ^ 32) (aid : m.area_id < 2 ^ 32)
    (short : seq < 2 ^ 16) (few : length lsa < 2 ^ 31) where
  lsu_packet-Says : Says m seq lsa (lsu_packet id seq m (length lsa) lsa iface nbr)
  unfolding lsu_packet be16 be32 mospf_checksum
  lsu_packet-Says =
      let (m₀, m₁, m₂, m₃, m₄, m₅, e) = six iface.mac mac in
      rw e (record {
        at = refl;
        version = refl;
        kind = refl;
        sum = (==_iff _ _).1 (omega arith);
        rid = number m.router_id rid;
        aid = number m.area_id aid;
        seq_read = omega arith;
        nadv = number (length lsa) (omega arith);
        array = refl;
      })

  -- Where such a packet comes in at a router of the same area
  lsu_packet-learn :
      (random : ℕ → ℕ) (i : ℕ) (p : Port) (len : ℕ) (m' : Mospf)
      → All IsWords lsa
      → m'.area_id ≡ m.area_id
      → handle_mospf_packet random i p (lsu_packet id seq m (length lsa) lsa iface nbr) len m'
        ≡ on_some
            (λ db. some (
              record m' { mospf_db = db },
              flood random p.iface
                  (lsu_packet id seq m (length lsa) lsa iface nbr)
                  len
                  m'.iface_list,
            ))
            (learn m'.router_id m.router_id seq (some lsa) m'.mospf_db)
  unfolding handle_mospf_packet handle_mospf_lsu
  lsu_packet-learn random i p len m' words area =
      let packet : List ℕ = lsu_packet id seq m (length lsa) lsa iface nbr in
      let s : Says m seq lsa packet = lsu_packet-Says in
      let small : ltb (length lsa) (2 ^ 31) ≡ true = ground arith in
      let same : (be32 42 packet == m'.area_id) ≡ true =
        (==_iff (be32 42 packet) m'.area_id).1 (s.aid ∙ sym area) in
      rw (
        s.sum,
        s.at,
        s.version,
        s.kind,
        same,
        s.rid,
        s.seq_read,
        s.nadv,
        small,
        s.array,
        read_lsas-bytes lsa words,
      )

  lsu_packet-taught :
      (random : ℕ → ℕ) (i : ℕ) (p : Port) (len : ℕ) (m' : Mospf)
      → All IsWords lsa
      → m'.area_id ≡ m.area_id
      → m.router_id ≢ m'.router_id
      → (db : List DbEntry) × (sent : List Out) × (handle_mospf_packet random i p
            (lsu_packet id seq m (length lsa) lsa iface nbr)
            len
            m'
          ≡ some (record m' { mospf_db = db }, sent))
        × Learnt m.router_id seq lsa m'.mospf_db db
  lsu_packet-taught random i p len m' words area ne =
      let packet : List ℕ = lsu_packet id seq m (length lsa) lsa iface nbr in
      let (db, learnt, is) = learn-Learnt m'.router_id m.router_id seq lsa m'.mospf_db ne in
      (
        db,
        flood random p.iface packet len m'.iface_list,
        lsu_packet-learn random i p len m' words area ∙ rw learnt refl,
        is,
      )

add_zero : (k : ℕ) → k + 0 ≡ k
add_zero k = omega arith

suc_shift : (k n : ℕ) → k + suc n ≡ suc k + n
suc_shift k n = omega arith

-- The packets have the numbers from the `k`-th on, counted from that of `m`.
abbrev pub TeachAll : Mospf → List Lsa → ℕ → List Out → Type 0
TeachAll m lsa k [] = Unit
TeachAll m lsa k (out ∷ sent) =
    Teaches m ((m.sequence_num + k) % 2 ^ 16) lsa out × TeachAll m lsa (suc k) sent

TeachAll-append :
    (m : Mospf) (lsa : List Lsa) (k : ℕ) (xs ys : List Out)
    → TeachAll m lsa k xs
    → TeachAll m lsa (k + length xs) ys
    → TeachAll m lsa k (xs ++ ys)
TeachAll-append m lsa k [] ys hx hy = rw (add_zero k) at hy
TeachAll-append m lsa k (x ∷ xs) ys hx hy =
    (hx.0, TeachAll-append m lsa (suc k) xs ys hx.1 (rw (suc_shift k (length xs)) at hy))

abbrev pub HasMac : Port → Type 0
HasMac p = length p.iface.mac ≡ 6

module _ (m : Mospf) (lsa : List Lsa) (rid : m.router_id < 2 ^ 32) (aid : m.area_id < 2 ^ 32)
    (few : length lsa < 2 ^ 31) (words : All IsWords lsa) (random : ℕ → ℕ) where
  send_nbrs-TeachAll :
      (k : ℕ) (iface : Iface) (nbrs : List Nbr)
      → length iface.mac ≡ 6
      → TeachAll m lsa k (send_nbrs random k m (length lsa) lsa iface nbrs)
  unfolding send_nbrs
  send_nbrs-TeachAll k iface [] mac = tt
  send_nbrs-TeachAll k iface (nbr ∷ nbrs) mac = (
    λ random' i p m' area ne.
        lsu_packet-taught (random k) ((m.sequence_num + k) % 2 ^ 16) m lsa iface nbr mac rid aid
          (omega arith) few random' i p (58 + length lsa * 12) m' words area ne,
    send_nbrs-TeachAll (suc k) iface nbrs mac,
  )

  send_nbrs-length :
      (k : ℕ) (iface : Iface) (nbrs : List Nbr)
      → length (send_nbrs random k m (length lsa) lsa iface nbrs) ≡ length nbrs
  unfolding send_nbrs
  send_nbrs-length k iface [] = refl
  send_nbrs-length k iface (nbr ∷ nbrs) = ap suc (send_nbrs-length (suc k) iface nbrs)

  send_ports-TeachAll :
      (k : ℕ) (ports : List Port)
      → All HasMac ports
      → TeachAll m lsa k (send_ports random k m (length lsa) lsa ports)
  unfolding send_ports
  send_ports-TeachAll k [] macs = tt
  send_ports-TeachAll k (p ∷ ports) macs =
      TeachAll-append m lsa k (send_nbrs random k m (length lsa) lsa p.iface p.nbr_list)
        (send_ports random (k + length p.nbr_list) m (length lsa) lsa ports)
        (send_nbrs-TeachAll k p.iface p.nbr_list macs.0)
        (rw (send_nbrs-length k p.iface p.nbr_list)
          (send_ports-TeachAll (k + length p.nbr_list) ports macs.1))

none_or_all : (lsa : List Lsa) → (if length lsa == 0 then [] else lsa) ≡ lsa
none_or_all [] = refl
none_or_all (a ∷ lsa) = rw (==_ne (suc (length lsa)) 0 (λ e. absurd (omega arith))) refl

-- Every packet that `lsu_update` sends, over interfaces with hardware addresses of 6 bytes, teaches
-- another router of the area that gets it whole all links of this router, a network for each interface
-- without neighbours and each neighbour of every other, under a sequence number of its own: the packets
-- are numbered from `sequence_num` on, modulo 2 ^ 16. Numbers have 32 bits, and the message fits into
-- an IP packet.
pub lsu_update-TeachAll :
    (random : ℕ → ℕ) (m : Mospf)
    → m.router_id < 2 ^ 32
    → m.area_id < 2 ^ 32
    → 44 + length (links m.iface_list) * 12 < 2 ^ 16
    → All IsWords (links m.iface_list)
    → All HasMac m.iface_list
    → TeachAll m (links m.iface_list) 0 (lsu_update random m).1
unfolding lsu_update
lsu_update-TeachAll random m rid aid few words macs =
    let lsa : List Lsa = links m.iface_list in
    let sent : TeachAll m lsa 0 (send_ports random 0 m (length lsa) lsa m.iface_list) =
      send_ports-TeachAll m lsa rid aid (omega arith) words random 0 m.iface_list macs in
    rw
      (
        count_adv-length m.iface_list,
        none_or_all (fill_lsa m.iface_list),
        fill_lsa-links m.iface_list,
      )
      sent
