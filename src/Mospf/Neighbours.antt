-- ===== src/Mospf/Neighbours.antt =====
-- The neighbours of an interface in mospf_daemon.c, Computer Networks/pr6-网络路由实验二: a hello message, and how
-- long it keeps a neighbour in the list.
use ucas_coursework.Prelude.{
  ℕ, zero, suc, ◌+◌, ◌-◌, ◌*◌, ◌≡◌, refl, Option, none, some, List, [], ◌∷◌, ◌++◌, map, ◌==◌, leb,
  if◌then◌else◌, get_elem?, get_elem?-set, ◌%◌, has, ◌∉◌,
}
use ucas_coursework.Net.Ip.{be16, be32}
use ucas_coursework.Mospf.{Nbr, Port, Mospf}
use ucas_coursework.Mospf.Message.{hdr_at}
use ucas_coursework.Mospf.Daemon.{age_nbrs, check_nbrs, add_nbr, lsu_update, greet_by}

abbrev pub ids : List Nbr → List ℕ
ids nbrs = map (λ n. n.nbr_id) nbrs

-- The list after a hello that says `n`, by what the search for its router gave
abbrev pub greeted_by : Nbr → List Nbr → Option (List Nbr) → List Nbr
greeted_by n nbrs none = nbrs ++ (n ∷ [])
greeted_by n nbrs (some l) = l

-- The list after a number of rounds of `checking_nbr_thread` without a hello
pub age_rounds : ℕ → List Nbr → List Nbr
age_rounds zero nbrs = nbrs
age_rounds (suc k) nbrs = age_rounds k (age_nbrs nbrs).0

-- Those with enough time left
survivors : ℕ → List Nbr → List Nbr
survivors k [] = []
survivors k (n ∷ nbrs) =
    let rest = survivors k nbrs in
    if leb k n.alive then record n { alive = n.alive - k } ∷ rest else rest

-- The list has `rid` once, with this much time left.
abbrev Lives : ℕ → ℕ → List Nbr → Type 0
Lives rid alive [] = ⊥
Lives rid alive (n ∷ nbrs) =
    if n.nbr_id == rid then (n.alive ≡ alive) × (rid ∉ ids nbrs) else Lives rid alive nbrs

-- What the search with its write does: the router is not in the list, or has its new time.
abbrev Refreshed : ℕ → ℕ → List Nbr → Option (List Nbr) → Type 0
Refreshed rid alive nbrs none = rid ∉ ids nbrs
Refreshed rid alive nbrs (some l) = Lives rid alive l × (ids l ≡ ids nbrs)

-- The port after a hello, in the state of the daemon
pub greet_by-at :
    (random : ℕ → ℕ) (i : ℕ) (p : Port) (n : Nbr) (m : Mospf) (found : Option (List Nbr))
    → get_elem? m.iface_list i ≡ some p
    → (q : Port) × (get_elem? (greet_by random i p n m found).0.iface_list i ≡ some q)
      × (q.nbr_list ≡ greeted_by n p.nbr_list found)
unfolding lsu_update
greet_by-at random i p n m none at =
    (add_nbr n p, get_elem?-set m.iface_list i p (add_nbr n p) at, refl)
greet_by-at random i p n m (some l) at =
    (record p { nbr_list = l }, get_elem?-set m.iface_list i p (record p { nbr_list = l }) at, refl)

-- The state after a number of rounds of `checking_nbr_thread`
abbrev pub check_rounds : (ℕ → ℕ → ℕ) → ℕ → Mospf → Mospf
check_rounds randoms zero m = m
check_rounds randoms (suc k) m = check_rounds randoms k (check_nbrs (randoms k) m).0

-- The port after a round
abbrev ticked : Port → Port
ticked p = record p { nbr_list = (age_nbrs p.nbr_list).0 }

-- The number of the router and the time that a hello says, as they stand in the packet
abbrev pub hello_rid : List ℕ → ℕ
hello_rid packet = be32 (hdr_at packet + 4) packet

abbrev pub hello_time : List ℕ → ℕ
hello_time packet = 3 * be16 (hdr_at packet + 20) packet % 256

-- From `m` on, the router stays a neighbour at the port for this many rounds, and no longer.
abbrev pub LivesFor : ℕ → ℕ → ℕ → Mospf → Type 0
LivesFor i rid time m =
    (randoms : ℕ → ℕ → ℕ) (k : ℕ)
    → (q : Port) × (get_elem? (check_rounds randoms k m).iface_list i ≡ some q)
      × (has rid (ids q.nbr_list) ≡ leb k time)
