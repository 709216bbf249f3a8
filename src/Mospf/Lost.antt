-- ===== src/Mospf/Lost.antt =====
-- What `nbr_update` of mospf_daemon.c, Computer Networks/pr6-网络路由实验二, makes of two new neighbours.
use ucas_coursework.Prelude.{
  ℕ, ◌≡◌, ◌≢◌, refl, ap, Option, List, [], ◌∷◌, ◌==◌, ==_ne, ==_refl, Bool-cases, inl, inr, All,
}
use ucas_coursework.Net.Types.{Iface}
use ucas_coursework.Mospf.{GraphNode}
use ucas_coursework.Mospf.Routes.{no_rid, relax, reached}

abbrev pub Missing : ℕ → List GraphNode → Type 0
Missing rid = All (λ n. n.rid ≢ rid)

-- Two routers that are not in the graph, that a visited router is next to: the first is entered into
-- every node that is not in use, and for the second nothing is written.
pub relax-lost :
    (a b dist : ℕ) (iface : Option Iface) (gw : ℕ) (graph : List GraphNode)
    → a ≢ b
    → a ≢ no_rid
    → Missing a graph
    → Missing b graph
    → Missing no_rid (relax a dist iface gw graph)
      × (relax b dist iface gw (relax a dist iface gw graph) ≡ relax a dist iface gw graph)
unfolding relax
relax-lost a b dist iface gw [] ne used ma mb = (tt, refl)
relax-lost a b dist iface gw (n ∷ graph) ne used ma mb =
    let (full, same) = relax-lost a b dist iface gw graph ne used ma.1 mb.1 in
    let na = ==_ne n.rid a ma.0 in
    let nb = ==_ne n.rid b mb.0 in
    let ab = ==_ne a b ne in
    let an = ==_ne a no_rid used in
    elim (Bool-cases (n.rid == no_rid)) [
      | inl free ↦
          rw (na, free, ab, an) ((used, full), ap (λ g. reached a dist iface gw n ∷ g) same)
      | inr taken ↦
          rw (na, taken, nb, taken)
            ((λ e. absurd (cc (taken, e, ==_refl no_rid)), full), ap (λ g. n ∷ g) same)
    ]
