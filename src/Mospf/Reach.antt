-- ===== src/Mospf/Reach.antt =====
-- The nodes of the graph of mospf_daemon.c, Computer Networks/pr6-网络路由实验二, and the routers that they stand
-- for.
use ucas_coursework.Prelude.{
  ℕ, ◌+◌, ◌≡◌, ◌≢◌, refl, ◌∙◌, ◌⊎◌, inl, inr, some, List, [], ◌∷◌, ◌==◌, ltb, ==_iff, Bool-cases,
  All, In, here, there,
}
use ucas_coursework.Net.Types.{Iface}
use ucas_coursework.Net.Ip.{RtEntry}
use ucas_coursework.Mospf.{Lsa, DbEntry, Nbr, Port, Mospf, GraphNode}
use ucas_coursework.Mospf.Routes.{
  no_rid, reached, relax, relax_all, nbr_update, seed, seed_nbrs, seed_ports,
}

-- The router `rid` is `dist` hops away over the neighbour at the address `gw` of the interface: it is
-- that neighbour, or what a router on the way says it is next to.
pub data Via (m : Mospf) : ℕ → ℕ → ℕ → Iface → Type 0 where
  direct :
      (p : Port) (n : Nbr) → In p m.iface_list → In n p.nbr_list → Via m n.nbr_id 1 n.nbr_ip p.iface
  hop :
      {u dist gw : ℕ} {iface : Iface} (e : DbEntry) (a : Lsa)
      → Via m u dist gw iface
      → In e m.mospf_db
      → e.rid ≡ u
      → In a e.array
      → a.rid ≢ m.router_id
      → Via m a.rid (dist + 1) gw iface

-- A node that is in use is a router that can be reached.
abbrev pub Good : Mospf → GraphNode → Type 0
Good m n =
    (n.rid ≡ no_rid)
    ⊎ ((iface : Iface) × (n.send_iface ≡ some iface) × Via m n.rid n.dist n.gw iface)

-- No router has the number that marks a node as not in use.
abbrev pub Known : List DbEntry → Type 0
Known = All (λ e. e.rid ≢ no_rid)

module _ (m : Mospf) where
  pub relax-Good :
      {rid dist gw : ℕ} {iface : Iface} (graph : List GraphNode)
      → Via m rid dist gw iface
      → All (Good m) graph
      → All (Good m) (relax rid dist (some iface) gw graph)
  unfolding relax
  relax-Good [] v h = tt
  relax-Good {rid} {dist} {gw} {iface} (n ∷ graph) v h =
      let new : Good m (reached rid dist (some iface) gw n) = inr (iface, refl, v) in
      elim (Bool-cases (n.rid == rid)) [
        | inl same ↦ elim (Bool-cases (ltb dist n.dist)) [
          | inl nearer ↦ rw (same, nearer) (new, relax-Good graph v h.1)
          | inr not_nearer ↦ rw (same, not_nearer) h
        ]
        | inr other ↦ elim (Bool-cases (n.rid == no_rid)) [
          | inl free ↦ rw (other, free) (new, relax-Good graph v h.1)
          | inr used ↦ rw (other, used) (h.0, relax-Good graph v h.1)
        ]
      ]

  pub relax_all-Good :
      {u dist gw : ℕ} {iface : Iface} (e : DbEntry) (lsas : List Lsa) (graph : List GraphNode)
      → Via m u dist gw iface
      → In e m.mospf_db
      → e.rid ≡ u
      → ((a : Lsa) → In a lsas → In a e.array)
      → All (Good m) graph
      → All (Good m) (relax_all m.router_id (dist + 1) (some iface) gw lsas graph)
  unfolding relax_all
  relax_all-Good e [] graph v i s f h = h
  relax_all-Good e (a ∷ lsas) graph v i s f h = elim (Bool-cases (a.rid == m.router_id)) [
    | inl own ↦ rw own (relax_all-Good e lsas graph v i s (λ x j. f x (there j)) h)
    | inr other ↦
        let d : a.rid ≢ m.router_id = λ q. absurd (cc ((==_iff a.rid m.router_id).1 q, other)) in
        rw other (
          relax_all-Good e lsas _ v i s (λ x j. f x (there j))
            (relax-Good graph (hop e a v i s (f a here) d) h))
  ]

  pub nbr_update-Good :
      (v : GraphNode) (db : List DbEntry) (graph : List GraphNode)
      → ((e : DbEntry) → In e db → In e m.mospf_db)
      → Known db
      → Good m v
      → All (Good m) graph
      → All (Good m) (nbr_update m.router_id v db graph)
  unfolding nbr_update
  nbr_update-Good v [] graph f k g h = h
  nbr_update-Good v (e ∷ db) graph f k g h = elim (Bool-cases (e.rid == v.rid)) [
    | inl same ↦ rw same (
        nbr_update-Good v db _ (λ x j. f x (there j)) k.1 g
          (update_from g ((==_iff e.rid v.rid).0 same)))
    | inr other ↦ rw other (nbr_update-Good v db graph (λ x j. f x (there j)) k.1 g h)
  ]
    where
      update_from :
          Good m v
          → e.rid ≡ v.rid
          → All (Good m) (relax_all m.router_id (v.dist + 1) v.send_iface v.gw e.array graph)
      update_from (inl free) s = absurd (k.0 (s ∙ free))
      update_from (inr (iface, q, via)) s =
          rw q (relax_all-Good e e.array graph via (f e here) s (λ a j. j) h)

  pub seed-Good :
      (p : Port) (n : Nbr) (graph : List GraphNode)
      → In p m.iface_list
      → In n p.nbr_list
      → All (Good m) graph
      → All (Good m) (seed p.iface n graph)
  unfolding seed
  seed-Good p n [] i j h = tt
  seed-Good p n (x ∷ graph) i j h = elim (Bool-cases (x.rid == no_rid)) [
    | inl free ↦ rw free (inr (p.iface, refl, direct p n i j), h.1)
    | inr used ↦ rw used (h.0, seed-Good p n graph i j h.1)
  ]

  pub seed_nbrs-Good :
      (p : Port) (nbrs : List Nbr) (graph : List GraphNode)
      → In p m.iface_list
      → ((n : Nbr) → In n nbrs → In n p.nbr_list)
      → All (Good m) graph
      → All (Good m) (seed_nbrs p.iface nbrs graph)
  unfolding seed_nbrs
  seed_nbrs-Good p [] graph i f h = h
  seed_nbrs-Good p (n ∷ nbrs) graph i f h =
      seed_nbrs-Good p nbrs (seed p.iface n graph) i (λ x j. f x (there j))
        (seed-Good p n graph i (f n here) h)

  pub seed_ports-Good :
      (ports : List Port) (graph : List GraphNode) (rtable : List RtEntry)
      → ((p : Port) → In p ports → In p m.iface_list)
      → All (Good m) graph
      → All (Good m) (seed_ports ports (graph, rtable)).0
  unfolding seed_ports
  seed_ports-Good [] graph rtable f h = h
  seed_ports-Good (p ∷ ports) graph rtable f h =
      seed_ports-Good ports (seed_nbrs p.iface p.nbr_list graph) _ (λ x j. f x (there j))
        (seed_nbrs-Good p p.nbr_list graph (f p here) (λ n j. j) h)
