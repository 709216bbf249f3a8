-- ===== src/Net/Frames/Header.antt =====
-- The headers that ip.c and icmp.c build pass the check of their receiver.
use ucas_coursework.Prelude.{ℕ, ◌+◌, ◌*◌, ◌^◌, ◌<◌, ◌≡◌, List, [], ◌∷◌, arith}
use ucas_coursework.Net.Checksum.{checksum, sum_words, ip_checksum, Even, checksum-verify}
use ucas_coursework.Net.Frames.{header_front, header_back, ip_init_hdr, icmp_message}

header-small :
    (id saddr daddr len proto : ℕ)
    → proto < 256
    → sum_words (header_front id len proto) + sum_words (header_back saddr daddr) < 2 ^ 20
unfolding sum_words
header-small id saddr daddr len proto p = omega arith

-- The checksum over a header that `ip_init_hdr` made is 0, as its receiver demands.
pub ip_init_hdr-verify :
    (id saddr daddr len proto : ℕ)
    → proto < 256
    → checksum (ip_init_hdr id saddr daddr len proto) 0 ≡ 0
unfolding ip_init_hdr ip_checksum
ip_init_hdr-verify id saddr daddr len proto p =
    checksum-verify (header_front id len proto) (header_back saddr daddr) tt tt
      (header-small id saddr daddr len proto p)

-- The checksum over an ICMP message of `icmp_send_packet` is 0, if its length is even and its words sum
-- up to less than 15 full ones.
pub icmp_message-verify :
    (type code : ℕ) (rest : List ℕ)
    → type < 256
    → code < 256
    → Even rest
    → sum_words rest < 15 * 2 ^ 16
    → checksum (icmp_message type code rest) 0 ≡ 0
unfolding icmp_message
icmp_message-verify type code rest t c e small =
    checksum-verify (type ∷ code ∷ []) rest tt e (unfold sum_words in omega arith)
