-- ===== src/Mospf/Hello.antt =====
-- The hello message of mospf_daemon.c, Computer Networks/pr6-网络路由实验二, from the router that sends it to the
-- list of the neighbour that gets it.
use ucas_coursework.Prelude.{
  ℕ, ◌+◌, ◌*◌, ◌^◌, ◌<◌, ◌≡◌, refl, sym, ap, ◌∙◌, true, false, Option, none, some, on_some, List,
  [], ◌∷◌, ◌++◌, arith, ◌==◌, ==_iff, Bool-cases, inl, inr, get_or, get_elem?, length, ◌⊎◌, ◌∉◌,
}
use ucas_coursework.Net.Types.{Iface}
use ucas_coursework.Net.Ip.{be16, be32}
use ucas_coursework.Net.Frames.Exchange.{number, six}
use ucas_coursework.Mospf.{Nbr, Port, Mospf, Out}
use ucas_coursework.Mospf.Message.{hdr_at, mospf_checksum}
use ucas_coursework.Mospf.Daemon.{
  refresh, greet_by, hello_packet, handle_mospf_hello, handle_mospf_packet,
}
use ucas_coursework.Mospf.Neighbours.{ids, greeted_by, greet_by-at}

-- What a hello packet says, read at the offsets of the handlers
record Says (m : Mospf) (iface : Iface) (packet : List ℕ) : Type 0 where
  at : hdr_at packet ≡ 34
  version : get_or packet 34 0 ≡ 2
  kind : get_or packet 35 0 ≡ 1
  sum :
      (get_or packet (hdr_at packet + 12) 0 + 256 * get_or packet (hdr_at packet + 13) 0
        == mospf_checksum packet)
      ≡ true
  rid : be32 38 packet ≡ m.router_id
  aid : be32 42 packet ≡ 0
  saddr : be32 26 packet ≡ iface.ip
  mask : be32 50 packet ≡ iface.mask
  helloint : be16 54 packet ≡ 5

-- The list with what a hello of `n` says: it is new and comes last, or the first entry of its router
-- has a new time.
abbrev pub Greeted : Nbr → List Nbr → List Nbr → Type 0
Greeted n old new =
    ((n.nbr_id ∉ ids old) × (new ≡ old ++ (n ∷ [])))
    ⊎ ((before : List Nbr) × (x : Nbr) × (after : List Nbr) × (old ≡ before ++ (x ∷ after))
        × (x.nbr_id ≡ n.nbr_id)
        × (n.nbr_id ∉ ids before)
        × (new ≡ before ++ (record x { alive = n.alive } ∷ after)))

-- What the search gives: the router is not in the list, or its first entry is written.
abbrev Searched : Nbr → List Nbr → Option (List Nbr) → Type 0
Searched n old none = n.nbr_id ∉ ids old
Searched n old (some l) =
    (before : List Nbr) × (x : Nbr) × (after : List Nbr) × (old ≡ before ++ (x ∷ after))
    × (x.nbr_id ≡ n.nbr_id)
    × (n.nbr_id ∉ ids before)
    × (l ≡ before ++ (record x { alive = n.alive } ∷ after))

Searched-behind :
    (n y : Nbr) (old : List Nbr) (found : Option (List Nbr))
    → (y.nbr_id == n.nbr_id) ≡ false
    → Searched n old found
    → Searched n (y ∷ old) (on_some (λ r. some (y ∷ r)) found)
Searched-behind n y old none other h = ground (arith, h, other)
Searched-behind n y old (some l) other (before, x, after, split, id, not_before, new) = (
  y ∷ before,
  x,
  after,
  ap (λ r. y ∷ r) split,
  id,
  ground (arith, not_before, other),
  ap (λ r. y ∷ r) new,
)

refresh-Searched : (n : Nbr) (nbrs : List Nbr) → Searched n nbrs (refresh n.nbr_id n.alive nbrs)
unfolding refresh
refresh-Searched n [] = refl
refresh-Searched n (y ∷ nbrs) = elim (Bool-cases (y.nbr_id == n.nbr_id)) [
  | inl same ↦ rw same ([], y, nbrs, refl, (==_iff y.nbr_id n.nbr_id).0 same, refl, refl)
  | inr other ↦
      rw other
        (Searched-behind n y nbrs (refresh n.nbr_id n.alive nbrs) other (refresh-Searched n nbrs))
]

Searched-Greeted :
    (n : Nbr) (old : List Nbr) (found : Option (List Nbr))
    → Searched n old found
    → Greeted n old (greeted_by n old found)
Searched-Greeted n old none h = inl (h, refl)
Searched-Greeted n old (some l) h = inr h

module _ (id : ℕ) (m : Mospf) (iface : Iface) (mac : length iface.mac ≡ 6)
    (rid : m.router_id < 2 ^ 32) (ip : iface.ip < 2 ^ 32) (mask : iface.mask < 2 ^ 32) where
  hello_packet-Says : Says m iface (hello_packet id m iface)
  unfolding hello_packet be16 be32 mospf_checksum
  hello_packet-Says =
      let (m₀, m₁, m₂, m₃, m₄, m₅, e) = six iface.mac mac in
      rw e (record {
        at = refl;
        version = refl;
        kind = refl;
        sum = (==_iff _ _).1 (omega arith);
        rid = number m.router_id rid;
        aid = refl;
        saddr = number iface.ip ip;
        mask = number iface.mask mask;
        helloint = refl;
      })

  -- The sender of a hello over an interface, as a neighbour with 15 rounds to live
  abbrev pub sender : Nbr
  sender = record { nbr_id = m.router_id; nbr_ip = iface.ip; nbr_mask = iface.mask; alive = 15 }

  -- The handler gives way to its part behind the parsing.
  hello_packet-parsed :
      (random : ℕ → ℕ) (i : ℕ) (p : Port) (len : ℕ) (m' : Mospf)
      → m'.area_id ≡ 0
      → handle_mospf_packet random i p (hello_packet id m iface) len m'
        ≡ some (greet_by random i p sender m' (refresh m.router_id 15 p.nbr_list))
  unfolding handle_mospf_packet handle_mospf_hello
  hello_packet-parsed random i p len m' area =
      let packet : List ℕ = hello_packet id m iface in
      let s : Says m iface packet = hello_packet-Says in
      let same : (be32 42 packet == m'.area_id) ≡ true =
        (==_iff (be32 42 packet) m'.area_id).1 (s.aid ∙ sym area) in
      rw (s.sum, s.at, s.version, s.kind, same, s.rid, s.saddr, s.mask, s.helloint)

  -- The hello that a router sends over an interface, with a hardware address of 6 bytes and numbers of 32
  -- bits, comes in at a router of the area 0: a router that was not in the list of the port is then its
  -- last entry, with the number of the router, the address and the mask of the interface, and 15 rounds
  -- to live; of a router that was in it the first entry has 15 rounds to live again, and is otherwise as
  -- it was; and the other entries stay.
  pub hello_packet-greets :
      (random : ℕ → ℕ) (i : ℕ) (p : Port) (len : ℕ) (m' : Mospf)
      → m'.area_id ≡ 0
      → get_elem? m'.iface_list i ≡ some p
      → (r : Mospf × List Out) × (q : Port) × (handle_mospf_packet random i p
            (hello_packet id m iface)
            len
            m'
          ≡ some r)
        × (get_elem? r.0.iface_list i ≡ some q)
        × Greeted sender p.nbr_list q.nbr_list
  hello_packet-greets random i p len m' area at =
      let found = refresh m.router_id 15 p.nbr_list in
      let (q, here, list) = greet_by-at random i p sender m' found at in
      (
        greet_by random i p sender m' found,
        q,
        hello_packet-parsed random i p len m' area,
        here,
        rw list (Searched-Greeted sender p.nbr_list found (refresh-Searched sender p.nbr_list)),
      )
