-- ===== src/Stp/Settle.antt =====
-- What a switch of stp.c makes of a message that is better than what its port knew.
use ucas_coursework.Prelude.{
  ℕ, ◌+◌, ◌≤◌, ◌≡◌, refl, Bool, true, false, Option, none, some, List, All,
}
use ucas_coursework.Stp.{StpPort, Stp, stp_port_is_designated, update_switch}
use ucas_coursework.Stp.Config.{RootPort}

-- A designated port announces the root and the cost of the switch; the way of another port costs no
-- more than that of the switch, to a root that is not smaller.
abbrev pub Settled : ℕ → ℕ → ℕ → StpPort → Type 0
Settled sw root cost q =
    (stp_port_is_designated sw q ≡ true → (q.designated_root ≡ root) × (q.designated_cost ≡ cost))
    × (stp_port_is_designated sw q ≡ false
        → (q.designated_cost ≤ cost) × (root ≤ q.designated_root))

-- The root is not above that of a port that is not designated.
abbrev Bounded : ℕ → ℕ → StpPort → Type 0
Bounded sw root q = stp_port_is_designated sw q ≡ false → root ≤ q.designated_root

-- The switch follows its root port, or is the root itself.
abbrev pub Follows : Option (ℕ × StpPort) → Stp → Type 0
Follows none s = (s.designated_root ≡ s.switch_id) × (s.root_path_cost ≡ 0)
Follows (some (i, r)) s =
    (s.designated_root ≡ r.designated_root)
    × (s.root_path_cost ≡ r.designated_cost + r.path_cost)
    × (s.root_port ≡ some i)

-- What a switch is after a better message: `ports` are its ports with what the message says.
pub record Recomputed (ports : List StpPort) (o : Option (ℕ × StpPort)) (stp s : Stp) : Type 0 where
  pub same_switch : s.switch_id ≡ stp.switch_id
  pub best : RootPort stp.switch_id ports o
  pub follows : Follows o s
  pub settled : All (Settled stp.switch_id s.designated_root s.root_path_cost) s.ports

follows :
    (o : Option (ℕ × StpPort)) (stp : Stp) (ports : List StpPort) (b : Bool)
    → Follows o (record (update_switch o stp) { ports = ports; hello_timer = b })
unfolding update_switch
follows none stp ports b = (refl, refl)
follows (some (i, r)) stp ports b = (refl, refl, refl)
