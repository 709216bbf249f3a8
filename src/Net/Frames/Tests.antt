-- ===== src/Net/Frames/Tests.antt =====
-- The theorems on frames at two hosts.
use ucas_coursework.Prelude.{ℕ, ◌≡◌, ◌<◌, ◌*◌, ◌^◌, refl, List, [], ◌∷◌, arith, replicate}
use ucas_coursework.Net.Types.{Iface, frame}
use ucas_coursework.Net.Arp.{ArpCache, arpcache_insert}
use ucas_coursework.Net.Checksum.{sum_words}
use ucas_coursework.Net.Frames.{arp_send_request, and_sent, handle_arp_packet}
use ucas_coursework.Net.Frames.Exchange.{request_frame, reply_frame, arp_exchange}

abbrev one : Iface
one = record { index = 1; mac = replicate 6 1; ip = 167772161; mask = 0 }

abbrev two : Iface
two = record { index = 2; mac = replicate 6 2; ip = 167772162; mask = 0 }

arp_exchange_example :
    (arp_send_request one 167772162 ≡ frame one (request_frame one two) 42)
    × ((now random : ℕ) (cache : ArpCache)
        → handle_arp_packet now random two (request_frame one two) cache
          ≡ and_sent
              (frame two (reply_frame one two) 42 ∷ [])
              (arpcache_insert now random 167772161 (replicate 6 1) cache))
    × ((now random : ℕ) (cache : ArpCache)
        → handle_arp_packet now random one (reply_frame one two) cache
          ≡ arpcache_insert now random 167772162 (replicate 6 2) cache)
arp_exchange_example = arp_exchange one two refl refl (omega arith) (omega arith)

abbrev echo : List ℕ
echo = 18 ∷ 52 ∷ 0 ∷ 1 ∷ 255 ∷ 255 ∷ []

echo-small : sum_words echo < 15 * 2 ^ 16
unfolding sum_words
echo-small = omega arith
