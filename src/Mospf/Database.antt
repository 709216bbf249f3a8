-- ===== src/Mospf/Database.antt =====
-- The link state database of mospf_daemon.c and mospf_database.c, Computer Networks/pr6-网络路由实验二.
use ucas_coursework.Prelude.{
  ℕ, Option, none, some, on_some, List, [], ◌∷◌, ◌++◌, ◌==◌, ltb, if◌then◌else◌,
}
use ucas_coursework.Mospf.{Lsa, DbEntry}

unfoldable pub init_mospf_db : List DbEntry
init_mospf_db = []

-- The first entry of the router
unfoldable pub find_entry : ℕ → List DbEntry → Option DbEntry
find_entry rid [] = none
find_entry rid (entry ∷ db) = if entry.rid == rid then some entry else find_entry rid db

unfoldable pub set_entry : DbEntry → List DbEntry → List DbEntry
set_entry new [] = []
set_entry new (entry ∷ db) = if entry.rid == new.rid then new ∷ db else entry ∷ set_entry new db

abbrev pub new_entry : ℕ → ℕ → List Lsa → DbEntry
new_entry rid seq array = record { rid = rid; seq = seq; array = array }

-- What is done with a message of the router `rid`, by what the database has of it. `array` is what is
-- copied out of the message, if it is needed.
abbrev pub learn_by :
    ℕ → ℕ → Option (List Lsa) → List DbEntry → Option DbEntry → Option (List DbEntry)
learn_by rid seq array db none = on_some (λ a. some (db ++ (new_entry rid seq a ∷ []))) array
learn_by rid seq array db (some existed) =
    if ltb existed.seq seq
    then on_some (λ a. some (set_entry (new_entry rid seq a) db)) array
    else some db

-- The part of `handle_mospf_lsu` under the lock, at the router `router_id`
unfoldable pub learn : ℕ → ℕ → ℕ → Option (List Lsa) → List DbEntry → Option (List DbEntry)
unfolding find_entry set_entry
learn router_id rid seq array db =
    if rid == router_id then some db else learn_by rid seq array db (find_entry rid db)
