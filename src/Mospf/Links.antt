-- ===== src/Mospf/Links.antt =====
-- The links that `lsu_update` of mospf_daemon.c, Computer Networks/pr6-网络路由实验二, tells of.
use Prim.Native.Nat.{bit_and}
use ucas_coursework.Prelude.{
  suc, map, ap₂, ◌≡◌, refl, ap, List, [], ◌∷◌, ◌++◌, arith, ◌==◌, ==_ne, if◌then◌else◌, length,
}
use ucas_coursework.Net.Types.{Iface}
use ucas_coursework.Mospf.{Lsa, Nbr, Port}
use ucas_coursework.Mospf.Daemon.{nbr_lsa, net_lsa, nbr_lsas, fill_lsa}

-- The links of a router: a network without neighbours, and the network of each neighbour with its number
abbrev pub port_links : Iface → List Nbr → List Lsa
port_links iface [] =
    record { subnet = bit_and iface.ip iface.mask; mask = iface.mask; rid = 0 } ∷ []
port_links iface (n ∷ nbrs) =
    map
      (λ (x : Nbr). record {
        subnet = bit_and x.nbr_mask x.nbr_ip;
        mask = x.nbr_mask;
        rid = x.nbr_id;
      })
      (n ∷ nbrs)

abbrev pub links : List Port → List Lsa
links [] = []
links (p ∷ ports) = port_links p.iface p.nbr_list ++ links ports

nbr_lsas-map :
    (nbrs : List Nbr)
    → nbr_lsas nbrs
      ≡ map
          (λ (x : Nbr). record {
            subnet = bit_and x.nbr_mask x.nbr_ip;
            mask = x.nbr_mask;
            rid = x.nbr_id;
          })
          nbrs
unfolding nbr_lsas
nbr_lsas-map [] = refl
nbr_lsas-map (n ∷ nbrs) = ap (λ l. nbr_lsa n ∷ l) (nbr_lsas-map nbrs)

port_links_lem :
    (iface : Iface) (nbrs : List Nbr)
    → (if length nbrs == 0 then net_lsa iface ∷ [] else nbr_lsas nbrs) ≡ port_links iface nbrs
port_links_lem iface [] = refl
port_links_lem iface (n ∷ nbrs) =
    rw (==_ne (suc (length nbrs)) 0 (λ e. absurd (omega arith))) (nbr_lsas-map (n ∷ nbrs))

pub fill_lsa-links : (ports : List Port) → fill_lsa ports ≡ links ports
unfolding fill_lsa
fill_lsa-links [] = refl
fill_lsa-links (p ∷ ports) =
    ap₂ (λ x y. x ++ y) (port_links_lem p.iface p.nbr_list) (fill_lsa-links ports)
