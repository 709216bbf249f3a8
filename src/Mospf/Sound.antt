-- ===== src/Mospf/Sound.antt =====
-- The routing table that `rtable_update` of mospf_daemon.c, Computer Networks/pr6-网络路由实验二, enters.
use Prim.Native.Nat.{bit_and}
use ucas_coursework.Prelude.{
  ℕ, zero, suc, ◌<◌, ◌≡◌, refl, sym, ap, ◌∙◌, inl, inr, none, some, on_some, List, [], ◌∷◌, ◌++◌,
  map, arith, ◌==◌, ==_iff, Bool-cases, Option-cases, length, length-set, length-replicate, set,
  All, All-get, All-set, All-replicate, In, here, there, append-nil, append_assoc,
}
use ucas_coursework.Net.Types.{Iface}
use ucas_coursework.Net.Ip.{RtEntry, new_rt_entry, add_rt_entry, clear_rtable, longest_prefix_match}
use ucas_coursework.Mospf.{Lsa, DbEntry, Port, Mospf, GraphNode}
use ucas_coursework.Mospf.Routes.{
  blank, initial_graph, nbr_update, find_min, add_routes, enter_routes, View, visit_nearest,
  visit_all, seed_nbrs, seed_ports, rtable_update,
}
use ucas_coursework.Mospf.Reach.{Via, Good, Known, nbr_update-Good, seed_ports-Good}
use ucas_coursework.Mospf.Size.{length-nbr_update, length-seed_ports, find_min-lt, get_elem?-lt}

-- The network of an interface
abbrev pub net_route : Port → RtEntry
net_route p = record {
  dest = bit_and p.iface.ip p.iface.mask;
  mask = p.iface.mask;
  gw = 0;
  iface = p.iface;
}

-- The networks of the interfaces, and behind them networks of routers that can be reached, each of
-- which no route in front of it matched.
pub data Built (m : Mospf) : List RtEntry → Type 0 where
  locals : Built m (map net_route m.iface_list)
  remote :
      {rtable : List RtEntry} {dist gw : ℕ} {iface : Iface} (e : DbEntry) (a : Lsa)
      → Built m rtable
      → Via m e.rid dist gw iface
      → In e m.mospf_db
      → In a e.array
      → longest_prefix_match a.subnet rtable ≡ none
      → Built m (rtable ++ (record { dest = a.subnet; mask = a.mask; gw = gw; iface = iface } ∷ []))

module _ (m : Mospf) where
  -- The routes to what one router says it is next to.
  add_routes-Built :
      (v : GraphNode) {iface : Iface} (e : DbEntry) (lsas : List Lsa) (rtable : List RtEntry)
      → v.send_iface ≡ some iface
      → Via m e.rid v.dist v.gw iface
      → In e m.mospf_db
      → ((a : Lsa) → In a lsas → In a e.array)
      → Built m rtable
      → (t : List RtEntry) × (add_routes v lsas rtable ≡ some t) × Built m t
  unfolding add_routes
  add_routes-Built v e [] rtable s via i f b = (rtable, refl, b)
  add_routes-Built v {iface} e (a ∷ lsas) rtable s via i f b =
      elim (Option-cases (longest_prefix_match a.subnet rtable)) [
        | inl missing ↦
            rw (missing, s)
              (add_routes-Built v e lsas _ s via i (λ x j. f x (there j))
                (remote e a b via i (f a here) missing))
        | inr (found, q) ↦ rw q (add_routes-Built v e lsas rtable s via i (λ x j. f x (there j)) b)
      ]

  enter_routes-Built :
      (v : GraphNode) (db : List DbEntry) (rtable : List RtEntry)
      → ((e : DbEntry) → In e db → In e m.mospf_db)
      → Known db
      → Good m v
      → Built m rtable
      → (t : List RtEntry) × (enter_routes v db rtable ≡ some t) × Built m t
  unfolding enter_routes
  enter_routes-Built v [] rtable f k g b = (rtable, refl, b)
  enter_routes-Built v (e ∷ db) rtable f k g b = elim (Bool-cases (e.rid == v.rid)) [
    | inl same ↦
        let (t, q, b') = entered g ((==_iff e.rid v.rid).0 same) in
        rw (same, q) (enter_routes-Built v db t (λ x j. f x (there j)) k.1 g b')
    | inr other ↦ rw other (enter_routes-Built v db rtable (λ x j. f x (there j)) k.1 g b)
  ]
    where
      entered :
          Good m v
          → e.rid ≡ v.rid
          → (t : List RtEntry) × (add_routes v e.array rtable ≡ some t) × Built m t
      entered (inl free) s = absurd (k.0 (s ∙ free))
      entered (inr (iface, q, via)) s =
          add_routes-Built v e e.array rtable q (rw s via) (f e here) (λ a j. j) b

seed_ports-routes :
    (ports : List Port) (graph : List GraphNode) (rtable : List RtEntry)
    → (seed_ports ports (graph, rtable)).1 ≡ rtable ++ map net_route ports
unfolding seed_ports add_rt_entry new_rt_entry
seed_ports-routes [] graph rtable = sym (append-nil rtable)
seed_ports-routes (p ∷ ports) graph rtable =
    seed_ports-routes ports (seed_nbrs p.iface p.nbr_list graph) (rtable ++ (net_route p ∷ []))
    ∙ append_assoc rtable (net_route p ∷ []) (map net_route ports)

module _ (m : Mospf) (known : Known m.mospf_db) where
  -- What holds between two visits; the graph has a node.
  abbrev Fine : View → Type 0
  Fine (graph, rtable) = All (Good m) graph × (0 < length graph) × Built m rtable

  visit_nearest-Fine :
      (graph : List GraphNode) (rtable : List RtEntry)
      → Fine (graph, rtable)
      → (next : View) × (visit_nearest m (graph, rtable) ≡ some next) × Fine next
  unfolding visit_nearest
  visit_nearest-Fine graph rtable (good, size, built) =
      let index : ℕ = find_min 0 65536 0 graph in
      let (n, e) =
        get_elem?-lt graph index (find_min-lt 0 65536 0 (length graph) graph (omega arith) size) in
      let v : GraphNode = record n { visited = 1 } in
      let g : Good m v = All-get (Good m) graph index e good in
      let (t, q, b) = enter_routes-Built m v m.mospf_db rtable (λ x j. j) known g built in
      let graph' : List GraphNode = nbr_update m.router_id v m.mospf_db (set graph index v) in
      (
        (graph', t),
        rw (e, q) refl,
        (
          nbr_update-Good m v m.mospf_db (set graph index v) (λ x j. j) known g
              (All-set (Good m) graph index g good),
          omega (
            arith,
            length-nbr_update m.router_id v m.mospf_db (set graph index v),
            length-set {0} graph index v,
          ),
          b,
        ),
      )

  visit_all-Fine :
      (rounds : ℕ) (view : View)
      → Fine view
      → (next : View) × (visit_all m rounds view ≡ some next) × Fine next
  unfolding visit_all
  visit_all-Fine zero view h = (view, refl, h)
  visit_all-Fine (suc rounds) (graph, rtable) h =
      let (next, e, h') = visit_nearest-Fine graph rtable h in
      let (last, f, h'') = visit_all-Fine rounds next h' in
      (last, ap (on_some (visit_all m rounds)) e ∙ f, h'')

  -- The rounds begin with the neighbours in the graph and the networks of the interfaces in the table.
  seeded-Fine :
      (rounds : ℕ)
      → (next : View) × (visit_all m rounds (seed_ports m.iface_list (initial_graph rounds, []))
          ≡ some next)
        × Built m next.1
  unfolding visit_all initial_graph
  seeded-Fine zero =
      let start : View = seed_ports m.iface_list (initial_graph 0, []) in
      (start, refl, rw (seed_ports-routes m.iface_list (initial_graph 0) []) locals)
  seeded-Fine (suc rounds) =
      let graph : List GraphNode = initial_graph (suc rounds) in
      let (next, e, fine) = visit_all-Fine (suc rounds) (seed_ports m.iface_list (graph, [])) (
        seed_ports-Good m m.iface_list graph [] (λ x j. j)
            (All-replicate (Good m) (suc rounds) (inl refl)),
        omega (
          arith,
          length-seed_ports m.iface_list graph [],
          length-replicate {0} (suc rounds) blank,
        ),
        rw (seed_ports-routes m.iface_list graph []) locals,
      ) in
      (next, e, fine.2)

  -- A round of `rtable_update` at a database with no router 2 ^ 32 - 1 uses no interface that is NULL and no
  -- node outside the graph. Of the table before nothing is left: the new one has the networks of all the
  -- interfaces, and behind them only networks that a router in the database is next to, over a neighbour
  -- from which this router can be reached by hops that the database has, and none that a route in
  -- front of it matched.
  pub rtable_update-Built :
      (rtable : List RtEntry) → (t : List RtEntry) × (rtable_update m rtable ≡ some t) × Built m t
  unfolding rtable_update clear_rtable
  rtable_update-Built rtable =
      let (next, e, b) = seeded-Fine (length m.mospf_db) in
      (next.1, ap (on_some (λ view. some view.1)) e, b)
