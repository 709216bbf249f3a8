-- ===== src/Switch/Tests.antt =====
-- Concrete runs of the MAC table.
use ucas_coursework.Prelude.{ℕ, ◌≡◌, some, List, [], ◌∷◌}
use ucas_coursework.Switch.{MacPortEntry, lookup_port, insert_mac_port, init_mac_hash_table}
use ucas_coursework.Switch.Learn.{lookup_port-insert_mac_port}

abbrev first_mac : List ℕ
first_mac = 1 ∷ 2 ∷ 3 ∷ 4 ∷ 5 ∷ 6 ∷ []

abbrev second_mac : List ℕ
second_mac = 1 ∷ 2 ∷ 3 ∷ 4 ∷ 6 ∷ 5 ∷ []

lookup_port-insert_mac_port_example :
    ((lookup_port 9 first_mac (insert_mac_port 8 first_mac 3 init_mac_hash_table)).0 ≡ some 3)
    × ((lookup_port 9 second_mac (insert_mac_port 8 first_mac 3 init_mac_hash_table)).0
        ≡ (lookup_port 9 second_mac init_mac_hash_table).0)
lookup_port-insert_mac_port_example =
    lookup_port-insert_mac_port 8 9 3 first_mac second_mac init_mac_hash_table (λ e. absurd cc)

abbrev entry : ℕ → MacPortEntry
entry visited = record { mac = first_mac; iface = 1; visited = visited }
