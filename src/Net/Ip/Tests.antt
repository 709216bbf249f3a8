-- ===== src/Net/Ip/Tests.antt =====
-- Runs of the routing table and of the forwarding of ip.c, and the theorems on routes and checksums.
use ucas_coursework.Prelude.{
  ℕ, ◌≡◌, ◌<◌, ◌+◌, ◌%◌, ◌/◌, ◌^◌, refl, Option, none, some, List, [], ◌∷◌, ◌++◌, arith, replicate,
}
use ucas_coursework.Net.Types.{Iface, icmp}
use ucas_coursework.Net.Checksum.{checksum, sum_words, checksum-verify}
use ucas_coursework.Net.Ip.{RtEntry, longest_prefix_match, ip_forward_packet}
use ucas_coursework.Net.Ip.Prefix.{Longest, longest_prefix_match-Longest}

abbrev eth : ℕ → Iface
eth n = record { index = n; mac = replicate 6 n; ip = 10; mask = 0 }

-- 10.0.0.0/8 by interface 1, 10.1.0.0/16 by 2, and a default route by 3.
abbrev table : List RtEntry
table =
    record { dest = 167772160; mask = 4278190080; gw = 0; iface = eth 1 }
    ∷ record { dest = 167837696; mask = 4294901760; gw = 5; iface = eth 2 }
    ∷ record { dest = 0; mask = 0; gw = 6; iface = eth 3 }
    ∷ []

abbrev out_index : Option RtEntry → ℕ
out_index none = 0
out_index (some e) = e.iface.index

-- 10.1.2.3, 10.2.2.3 and 192.0.0.1
prefix_run : out_index (longest_prefix_match 167838211 table) ≡ 2
unfolding longest_prefix_match
prefix_run = refl

prefix_short_run : out_index (longest_prefix_match 167903747 table) ≡ 1
unfolding longest_prefix_match
prefix_short_run = refl

prefix_default_run : out_index (longest_prefix_match 3221225473 table) ≡ 3
unfolding longest_prefix_match
prefix_default_run = refl

longest_prefix_match-Longest_example :
    Longest 167838211 table (longest_prefix_match 167838211 table)
longest_prefix_match-Longest_example = longest_prefix_match-Longest 167838211 table

-- A header of five words, its field being 0.
abbrev front : List ℕ
front = 69 ∷ 0 ∷ 0 ∷ 40 ∷ 0 ∷ 0 ∷ 64 ∷ 0 ∷ 64 ∷ 6 ∷ []

abbrev back : List ℕ
back = 10 ∷ 0 ∷ 0 ∷ 1 ∷ 10 ∷ 0 ∷ 0 ∷ 2 ∷ []

small : sum_words front + sum_words back < 2 ^ 20
unfolding sum_words
small = omega arith

checksum-verify_example :
    checksum
      (front
        ++ (checksum (front ++ (0 ∷ 0 ∷ back)) 0 % 256
            ∷ checksum (front ++ (0 ∷ 0 ∷ back)) 0 / 256
            ∷ back))
      0
    ≡ 0
checksum-verify_example = checksum-verify front back tt tt small

expired_run :
    ip_forward_packet 0 table 167838211 (replicate 34 1) 34 (record { entries = []; req_list = [] })
    ≡ (icmp (replicate 34 1) 34 11 0 ∷ [], record { entries = []; req_list = [] })
unfolding ip_forward_packet
expired_run = refl
