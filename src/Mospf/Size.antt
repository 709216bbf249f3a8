-- ===== src/Mospf/Size.antt =====
-- The graph of mospf_daemon.c, Computer Networks/pr6-网络路由实验二, keeps its size.
use ucas_coursework.Prelude.{
  ℕ, zero, suc, ◌+◌, ◌<◌, ◌≤◌, ◌≡◌, refl, ◌∙◌, ◌&&◌, inl, inr, Option, some, List, [], ◌∷◌, arith,
  ◌==◌, ltb, Bool-cases, length, get_elem?,
}
use ucas_coursework.Net.Types.{Iface}
use ucas_coursework.Net.Ip.{RtEntry}
use ucas_coursework.Mospf.{Lsa, DbEntry, Nbr, Port, GraphNode}
use ucas_coursework.Mospf.Routes.{
  relax, relax_all, nbr_update, find_min, seed, seed_nbrs, seed_ports,
}

-- The graph keeps its size.
pub length-relax :
    (rid dist : ℕ) (iface : Option Iface) (gw : ℕ) (graph : List GraphNode)
    → length (relax rid dist iface gw graph) ≡ length graph
unfolding relax
length-relax rid dist iface gw [] = refl
length-relax rid dist iface gw (n ∷ graph) = ground (arith, length-relax rid dist iface gw graph)

pub length-relax_all :
    (own dist : ℕ) (iface : Option Iface) (gw : ℕ) (lsas : List Lsa) (graph : List GraphNode)
    → length (relax_all own dist iface gw lsas graph) ≡ length graph
unfolding relax_all
length-relax_all own dist iface gw [] graph = refl
length-relax_all own dist iface gw (a ∷ lsas) graph = elim (Bool-cases (a.rid == own)) [
  | inl mine ↦ rw mine (length-relax_all own dist iface gw lsas graph)
  | inr other ↦ rw other (
      length-relax_all own dist iface gw lsas (relax a.rid dist iface gw graph)
      ∙ length-relax a.rid dist iface gw graph)
]

pub length-nbr_update :
    (own : ℕ) (v : GraphNode) (db : List DbEntry) (graph : List GraphNode)
    → length (nbr_update own v db graph) ≡ length graph
unfolding nbr_update
length-nbr_update own v [] graph = refl
length-nbr_update own v (e ∷ db) graph = elim (Bool-cases (e.rid == v.rid)) [
  | inl same ↦ rw same (
      length-nbr_update own v db _
      ∙ length-relax_all own (v.dist + 1) v.send_iface v.gw e.array graph)
  | inr other ↦ rw other (length-nbr_update own v db graph)
]

pub length-seed :
    (iface : Iface) (n : Nbr) (graph : List GraphNode) → length (seed iface n graph) ≡ length graph
unfolding seed
length-seed iface n [] = refl
length-seed iface n (x ∷ graph) = ground (arith, length-seed iface n graph)

pub length-seed_nbrs :
    (iface : Iface) (nbrs : List Nbr) (graph : List GraphNode)
    → length (seed_nbrs iface nbrs graph) ≡ length graph
unfolding seed_nbrs
length-seed_nbrs iface [] graph = refl
length-seed_nbrs iface (n ∷ nbrs) graph =
    length-seed_nbrs iface nbrs (seed iface n graph) ∙ length-seed iface n graph

pub length-seed_ports :
    (ports : List Port) (graph : List GraphNode) (rtable : List RtEntry)
    → length (seed_ports ports (graph, rtable)).0 ≡ length graph
unfolding seed_ports
length-seed_ports [] graph rtable = refl
length-seed_ports (p ∷ ports) graph rtable =
    length-seed_ports ports (seed_nbrs p.iface p.nbr_list graph) _
    ∙ length-seed_nbrs p.iface p.nbr_list graph

-- The node that is visited is one of the graph.
pub find_min-lt :
    (i min_dist index bound : ℕ) (graph : List GraphNode)
    → i + length graph ≤ bound
    → index < bound
    → find_min i min_dist index graph < bound
unfolding find_min
find_min-lt i min_dist index bound [] h k = k
find_min-lt i min_dist index bound (n ∷ graph) h k =
    elim (Bool-cases (ltb n.dist min_dist && n.visited == 0)) [
      | inl nearer ↦
          rw nearer (find_min-lt (suc i) n.dist i bound graph (omega arith) (omega arith))
      | inr not_nearer ↦
          rw not_nearer (find_min-lt (suc i) min_dist index bound graph (omega arith) k)
    ]

pub get_elem?-lt :
    {A : Type 0} (xs : List A) (i : ℕ) → i < length xs → (x : A) × (get_elem? xs i ≡ some x)
get_elem?-lt [] i h = absurd (omega arith)
get_elem?-lt (x ∷ xs) zero h = (x, refl)
get_elem?-lt (x ∷ xs) (suc i) h = get_elem?-lt xs i (omega arith)
