-- ===== src/Mospf/Tests.antt =====
-- Runs of the mOSPF daemon: three routers in a row, and the theorems at concrete inputs.
use ucas_coursework.Prelude.{
  ℕ, ◌≡◌, refl, Option, none, some, on_some, List, [], ◌∷◌, map, arith, get_elem?,
}
use ucas_coursework.Net.Types.{Iface}
use ucas_coursework.Net.Ip.{RtEntry}
use ucas_coursework.Mospf.{DbEntry, Nbr, Port, Mospf, Out, by_arp, GraphNode}
use ucas_coursework.Mospf.Database.{init_mospf_db}
use ucas_coursework.Mospf.Daemon.{lsu_update, hello_packet, handle_mospf_packet}
use ucas_coursework.Mospf.Routes.{no_rid, blank, relax, rtable_update}
use ucas_coursework.Mospf.Newest.{learn_all, UpToDate, learn_all-UpToDate}
use ucas_coursework.Mospf.Hello.{Greeted, hello_packet-greets}
use ucas_coursework.Mospf.Links.{links}
use ucas_coursework.Mospf.Flood.{TeachAll, lsu_update-TeachAll}
use ucas_coursework.Mospf.Sound.{Built, rtable_update-Built}
use ucas_coursework.Mospf.Lost.{Missing, relax-lost}

abbrev iface_at : ℕ → ℕ → Iface
iface_at index ip = record {
  index = index;
  mac = 2 ∷ 0 ∷ 0 ∷ 0 ∷ 0 ∷ index ∷ [];
  ip = ip;
  mask = 0xffffff00;
}

abbrev nbr_at : ℕ → ℕ → Nbr
nbr_at id ip = record { nbr_id = id; nbr_ip = ip; nbr_mask = 0xffffff00; alive = 15 }

-- Router 0x0a000001, with a neighbour at its second interface.
abbrev left : Mospf
left = record {
  iface_list =
      record { iface = iface_at 0 0x0a000001; helloint = 5; num_nbr = 0; nbr_list = [] }
      ∷ record {
        iface = iface_at 1 0x0a000101;
        helloint = 5;
        num_nbr = 1;
        nbr_list = nbr_at 0x0a000102 0x0a000102 ∷ [];
      }
      ∷ [];
  area_id = 0;
  router_id = 0x0a000001;
  sequence_num = 7;
  lsuint = 30;
  mospf_db = [];
}

-- Its neighbour.
abbrev middle_port : Port
middle_port = record {
  iface = iface_at 2 0x0a000102;
  helloint = 5;
  num_nbr = 1;
  nbr_list = nbr_at 0x0a000001 0x0a000101 ∷ [];
}

abbrev middle : Mospf
middle = record {
  iface_list = middle_port ∷ [];
  area_id = 0;
  router_id = 0x0a000102;
  sequence_num = 0;
  lsuint = 30;
  mospf_db = [];
}

abbrev deliver : List Out → Option (Mospf × List Out)
deliver (by_arp iface dst packet len ∷ []) =
    handle_mospf_packet (λ n. 0) 0 middle_port packet len middle
deliver sent = none

abbrev learnt : Option (Mospf × List Out) → Option (List DbEntry)
learnt = on_some (λ r. some r.0.mospf_db)

abbrev heard : DbEntry
heard = record {
  rid = 0x0a000001;
  seq = 7;
  array =
      record { subnet = 0x0a000000; mask = 0xffffff00; rid = 0 }
      ∷ record { subnet = 0x0a000100; mask = 0xffffff00; rid = 0x0a000102 }
      ∷ [];
}

flood_run : learnt (deliver (lsu_update (λ n. 5) left).1) ≡ some (heard ∷ [])
unfolding lsu_update handle_mospf_packet
flood_run = refl

abbrev known : Mospf
known = record middle { mospf_db = heard ∷ [] }

abbrev shown : RtEntry → ℕ × ℕ × ℕ
shown e = (e.dest, e.gw, e.iface.index)

routes_run :
    on_some (λ t. some (map shown t)) (rtable_update known [])
    ≡ some ((0x0a000100, 0, 2) ∷ (0x0a000000, 0x0a000101, 2) ∷ [])
unfolding rtable_update
routes_run = refl

abbrev again : DbEntry
again = record heard { seq = 9 }

learn_all-UpToDate_example :
    (db : List DbEntry) × (learn_all 0x0a000102 (heard ∷ again ∷ heard ∷ []) init_mospf_db
      ≡ some db)
    × UpToDate 0x0a000102 (heard ∷ again ∷ heard ∷ []) db
learn_all-UpToDate_example = learn_all-UpToDate 0x0a000102 (heard ∷ again ∷ heard ∷ [])

rtable_update-Built_example : (t : List RtEntry) × (rtable_update known [] ≡ some t) × Built known t
rtable_update-Built_example = rtable_update-Built known (λ e. absurd (omega arith), tt) []

lsu_update-TeachAll_example : TeachAll left (links left.iface_list) 0 (lsu_update (λ n. 5) left).1
lsu_update-TeachAll_example =
    lsu_update-TeachAll (λ n. 5) left (omega arith) (omega arith) (omega arith) (omega arith)
      (refl, (refl, tt))

-- The hello of `left` over its second interface
abbrev hello : List ℕ
hello = hello_packet 5 left (iface_at 1 0x0a000101)

hello_packet-greets_example :
    (r : Mospf × List Out) × (q : Port) × (handle_mospf_packet
        (λ n. 0)
        0
        middle_port
        hello
        58
        middle
      ≡ some r)
    × (get_elem? r.0.iface_list 0 ≡ some q)
    × Greeted (nbr_at 0x0a000001 0x0a000101) middle_port.nbr_list q.nbr_list
hello_packet-greets_example =
    hello_packet-greets 5 left (iface_at 1 0x0a000101) refl (omega arith) (omega arith)
      (omega arith) (λ n. 0) 0 middle_port 58 middle refl refl

abbrev used_node : GraphNode
used_node = record { rid = 3; dist = 1; send_iface = none; gw = 0; visited = 1 }

relax-lost_example :
    Missing no_rid (relax 5 2 none 0 (used_node ∷ blank ∷ blank ∷ []))
    × (relax 6 2 none 0 (relax 5 2 none 0 (used_node ∷ blank ∷ blank ∷ []))
        ≡ relax 5 2 none 0 (used_node ∷ blank ∷ blank ∷ []))
relax-lost_example =
    relax-lost 5 6 2 none 0 (used_node ∷ blank ∷ blank ∷ []) (λ e. absurd (omega arith))
      (λ e. absurd (omega arith)) (omega arith) (omega arith)
