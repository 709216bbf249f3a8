-- ===== src/Nat/Tests.antt =====
-- Concrete runs of the address translation.
use ucas_coursework.Prelude.{◌≡◌, refl, some, [], ◌∷◌, arith}
use ucas_coursework.Nat.{Packet, NatTable, dir_in, dir_out, find_port, free_port, nat_table_init}
use ucas_coursework.Nat.Translate.{do_translation, new_mapping}
use ucas_coursework.Nat.Reply.{reply, do_translation-reply}

abbrev request : Packet
request = record {
  saddr = 100;
  daddr = 200;
  sport = 11;
  dport = 80;
  seq = 5;
  ack = 0;
  flags = 2;
  protocol = 6;
}

abbrev empty_table : NatTable
empty_table = nat_table_init 1 2

do_translation-reply_example :
    (n' : NatTable) × (n'' : NatTable) × (do_translation 7 dir_out empty_table request
      ≡ some (record request { saddr = 2; sport = 12345 }, n'))
    × (do_translation 8 dir_in n' (reply empty_table request 3 6 18)
        ≡ some (record (reply empty_table request 3 6 18) { daddr = 100; dport = 11 }, n''))
unfolding nat_table_init free_port find_port
do_translation-reply_example =
    do_translation-reply 7 8 3 6 18 empty_table request refl refl tt (λ e. omega arith)

abbrev idle_table : NatTable
idle_table = record empty_table { mapping_list = λ h. new_mapping 7 2 12345 request ∷ [] }
