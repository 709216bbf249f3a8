-- ===== src/Stp/Tests.antt =====
-- Runs of a switch of stp.c with two ports, and its theorems.
use ucas_coursework.Prelude.{
  ℕ, ◌≡◌, ◌||◌, refl, Bool, true, false, Option, none, some, List, [], ◌∷◌,
}
use ucas_coursework.Stp.{
  StpPort, StpConfig, Stp, stp_init, stp_handle_config_packet, cmp_2_ports,
  cmp_with_incoming_config,
}
use ucas_coursework.Stp.Order.{lex_le, vector, config_vector, cmp_2_ports_lem}

abbrev port : ℕ → StpPort
port n = record {
  port_id = n;
  path_cost = 1;
  designated_root = 9;
  designated_switch = 9;
  designated_port = n;
  designated_cost = 0;
}

-- A switch that believes to be the root.
abbrev switch : Stp
switch = record {
  switch_id = 9;
  designated_root = 9;
  root_path_cost = 0;
  root_port = none;
  hello_timer = true;
  ports = port 1 ∷ port 2 ∷ [];
}

-- Switch 5 announces the root 3 at cost 1.
abbrev better_config : StpConfig
better_config = record { root_id = 3; root_path_cost = 1; switch_id = 5; port_id = 7 }

init_run : (stp_init (0 ∷ 0 ∷ 0 ∷ 0 ∷ 1 ∷ 2 ∷ []) 2).switch_id ≡ 9223372036854776066
unfolding stp_init
init_run = refl

abbrev after : Option (List (ℕ × StpConfig) × Stp) → Option (ℕ × ℕ × Bool)
after none = none
after (some (out, s)) = some (s.designated_root, s.root_path_cost, s.hello_timer)

config_run : after (stp_handle_config_packet 0 better_config switch) ≡ some (3, 2, false)
unfolding stp_handle_config_packet
config_run = refl

cmp_2_ports_lem_example :
    (cmp_2_ports (port 1) (port 2) ≡ lex_le (vector (port 1)) (vector (port 2)))
    × (cmp_with_incoming_config (port 1) better_config
        ≡ lex_le (vector (port 1)) (config_vector better_config))
    × ((cmp_2_ports (port 1) (port 2) || cmp_2_ports (port 2) (port 1)) ≡ true)
    × (cmp_2_ports (port 1) (port 2) ≡ true
        → cmp_2_ports (port 2) (port 3) ≡ true
        → cmp_2_ports (port 1) (port 3) ≡ true)
    × (cmp_2_ports (port 1) (port 2) ≡ true
        → cmp_2_ports (port 2) (port 1) ≡ true
        → vector (port 1) ≡ vector (port 2))
cmp_2_ports_lem_example = cmp_2_ports_lem (port 1) (port 2) (port 3) better_config
