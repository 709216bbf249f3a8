-- ===== src/Mospf/Routes.antt =====
-- The graph and the routing table of mospf_daemon.c, Computer Networks/pr6-网络路由实验二.
use ucas_coursework.Prelude.{
  ℕ, zero, suc, ◌+◌, Bool, ◌&&◌, Option, none, some, on_some, List, [], ◌∷◌, ◌==◌, ltb,
  if◌then◌else◌, get_elem?, length, set, replicate,
}
use Prim.Native.Nat.{bit_and}
use ucas_coursework.Net.Types.{Iface}
use ucas_coursework.Net.Ip.{RtEntry, new_rt_entry, add_rt_entry, clear_rtable, longest_prefix_match}
use ucas_coursework.Mospf.{Lsa, DbEntry, Nbr, Port, Mospf, GraphNode}

-- -1 as a number of 32 bits: the node is not in use.
abbrev pub no_rid : ℕ
no_rid = 0xffffffff

abbrev pub blank : GraphNode
blank = record { rid = no_rid; dist = 65535; send_iface = none; gw = 0; visited = 0 }

unfoldable pub initial_graph : ℕ → List GraphNode
initial_graph rt_count = replicate rt_count blank

abbrev pub reached : ℕ → ℕ → Option Iface → ℕ → GraphNode → GraphNode
reached rid dist iface gw n = record n { rid = rid; dist = dist; send_iface = iface; gw = gw }

-- The loop over the graph for one neighbour `rid` of the visited router. It goes on behind a node that
-- it fills, and ends at a node of that router that is not farther.
unfoldable pub relax : ℕ → ℕ → Option Iface → ℕ → List GraphNode → List GraphNode
relax rid dist iface gw [] = []
relax rid dist iface gw (n ∷ graph) =
    let rest = relax rid dist iface gw graph in
    if n.rid == rid
    then (if ltb dist n.dist then reached rid dist iface gw n ∷ rest else n ∷ graph)
    else (if n.rid == no_rid then reached rid dist iface gw n ∷ rest else n ∷ rest)

unfoldable pub relax_all : ℕ → ℕ → Option Iface → ℕ → List Lsa → List GraphNode → List GraphNode
unfolding relax
relax_all router_id dist iface gw [] graph = graph
relax_all router_id dist iface gw (a ∷ lsas) graph =
    relax_all router_id dist iface gw lsas
      (if a.rid == router_id then graph else relax a.rid dist iface gw graph)

unfoldable pub nbr_update : ℕ → GraphNode → List DbEntry → List GraphNode → List GraphNode
unfolding relax_all
nbr_update router_id v [] graph = graph
nbr_update router_id v (entry ∷ db) graph = nbr_update router_id v db (
    if entry.rid == v.rid
    then relax_all router_id (v.dist + 1) v.send_iface v.gw entry.array graph
    else graph)

-- The search for the nearest router not visited, from the node `i` on
unfoldable pub find_min : ℕ → ℕ → ℕ → List GraphNode → ℕ
find_min i min_dist index [] = index
find_min i min_dist index (n ∷ graph) =
    let nearer : Bool = ltb n.dist min_dist && n.visited == 0 in
    find_min (suc i) (if nearer then n.dist else min_dist) (if nearer then i else index) graph

-- A route through an interface that is NULL is a fault.
abbrev pub add_route : Lsa → ℕ → Option Iface → List RtEntry → Option (List RtEntry)
add_route a gw none rtable = none
add_route a gw (some iface) rtable =
    some (add_rt_entry (new_rt_entry a.subnet a.mask gw iface) rtable)

abbrev pub route_unless :
    Lsa → ℕ → Option Iface → List RtEntry → Option RtEntry → Option (List RtEntry)
route_unless a gw iface rtable none = add_route a gw iface rtable
route_unless a gw iface rtable (some found) = some rtable

unfoldable pub add_routes : GraphNode → List Lsa → List RtEntry → Option (List RtEntry)
unfolding longest_prefix_match add_rt_entry new_rt_entry
add_routes v [] rtable = some rtable
add_routes v (a ∷ lsas) rtable =
    on_some (add_routes v lsas)
      (route_unless a v.gw v.send_iface rtable (longest_prefix_match a.subnet rtable))

unfoldable pub enter_routes : GraphNode → List DbEntry → List RtEntry → Option (List RtEntry)
unfolding add_routes
enter_routes v [] rtable = some rtable
enter_routes v (entry ∷ db) rtable =
    on_some (enter_routes v db)
      (if entry.rid == v.rid then add_routes v entry.array rtable else some rtable)

-- The graph, and the routing table
abbrev pub View : Type 0
View = List GraphNode × List RtEntry

-- `set_visited` and then `nbr_update`, at the node that was found
abbrev pub visit : Mospf → ℕ → View → Option GraphNode → Option View
visit m index (graph, rtable) none = none
visit m index (graph, rtable) (some n) =
    let v : GraphNode = record n { visited = 1 } in
    on_some (λ routes. some (nbr_update m.router_id v m.mospf_db (set graph index v), routes))
      (enter_routes v m.mospf_db rtable)

unfoldable pub visit_nearest : Mospf → View → Option View
unfolding find_min enter_routes nbr_update
visit_nearest m (graph, rtable) =
    let index : ℕ = find_min 0 65536 0 graph in
    visit m index (graph, rtable) (get_elem? graph index)

-- As many rounds as the database has entries
unfoldable pub visit_all : Mospf → ℕ → View → Option View
unfolding visit_nearest
visit_all m zero view = some view
visit_all m (suc n) view = on_some (visit_all m n) (visit_nearest m view)

-- A neighbour goes to the first node that is not in use.
unfoldable pub seed : Iface → Nbr → List GraphNode → List GraphNode
seed iface nbr [] = []
seed iface nbr (n ∷ graph) =
    if n.rid == no_rid
    then reached nbr.nbr_id 1 (some iface) nbr.nbr_ip n ∷ graph
    else n ∷ seed iface nbr graph

unfoldable pub seed_nbrs : Iface → List Nbr → List GraphNode → List GraphNode
unfolding seed
seed_nbrs iface [] graph = graph
seed_nbrs iface (nbr ∷ nbrs) graph = seed_nbrs iface nbrs (seed iface nbr graph)

unfoldable pub seed_ports : List Port → View → View
unfolding seed_nbrs add_rt_entry new_rt_entry
seed_ports [] view = view
seed_ports (p ∷ ports) (graph, rtable) =
    let net : RtEntry = new_rt_entry (bit_and p.iface.ip p.iface.mask) p.iface.mask 0 p.iface in
    seed_ports ports (seed_nbrs p.iface p.nbr_list graph, add_rt_entry net rtable)

-- One round of `rtable_update`. `none` is a fault.
unfoldable pub rtable_update : Mospf → List RtEntry → Option (List RtEntry)
unfolding clear_rtable initial_graph seed_ports visit_all
rtable_update m rtable =
    let rt_count : ℕ = length m.mospf_db in
    on_some (λ view. some view.1)
      (visit_all m rt_count (seed_ports m.iface_list (initial_graph rt_count, clear_rtable rtable)))
