-- ===== src/Mospf/Message.antt =====
-- mospf_proto.c and include/mospf_proto.h of Computer Networks/pr6-网络路由实验二: the bytes of the messages, and
-- what is read from them. `packet` has its Ethernet header in front.
use ucas_coursework.Prelude.{
  ℕ, zero, suc, ◌+◌, ◌*◌, ◌/◌, ◌%◌, ◌^◌, Option, none, some, on_some, List, [], ◌∷◌, ◌++◌, ltb,
  if◌then◌else◌, get_or, length, take, drop, set,
}
use ucas_coursework.Net.Checksum.{checksum}
use ucas_coursework.Net.Ip.{be16, be32}
use ucas_coursework.Net.Frames.{be_bytes}
use ucas_coursework.Mospf.{Lsa}

-- The header in front of its checksum: version 2, type, length, router and area. The checksum and the
-- padding follow.
abbrev pub hdr_front : ℕ → ℕ → ℕ → ℕ → List ℕ
hdr_front kind len rid aid =
    2 ∷ kind ∷ len / 2 ^ 8 % 256 ∷ len % 256 ∷ (be_bytes rid ++ be_bytes aid)

-- `mospf_init_hdr` of a header of 16 bytes, and `mospf_checksum` stored into it
unfoldable pub mospf_init_hdr : ℕ → ℕ → ℕ → ℕ → List ℕ
unfolding checksum
mospf_init_hdr kind len rid aid =
    let sum : ℕ = checksum (take len (hdr_front kind len rid aid ++ (0 ∷ 0 ∷ 0 ∷ 0 ∷ []))) 0 in
    hdr_front kind len rid aid ++ (sum % 256 ∷ sum / 256 ∷ 0 ∷ 0 ∷ [])

-- MOSPF_DEFAULT_HELLOINT is 5.
unfoldable pub mospf_init_hello : ℕ → List ℕ
mospf_init_hello mask = be_bytes mask ++ (0 ∷ 5 ∷ 0 ∷ 0 ∷ [])

-- MOSPF_MAX_LSU_TTL is 255.
unfoldable pub mospf_init_lsu : ℕ → ℕ → List ℕ
mospf_init_lsu sequence_num nadv =
    sequence_num / 2 ^ 8 % 256 ∷ sequence_num % 256 ∷ 255 ∷ 0 ∷ be_bytes nadv

-- The bytes of an array of `struct mospf_lsa`
unfoldable pub lsa_bytes : List Lsa → List ℕ
lsa_bytes [] = []
lsa_bytes (a ∷ lsas) = be_bytes a.subnet ++ (be_bytes a.mask ++ (be_bytes a.rid ++ lsa_bytes lsas))

-- Where the header of mOSPF begins, behind the IP header
abbrev pub hdr_at : List ℕ → ℕ
hdr_at packet = 14 + get_or packet 14 0 % 16 * 4

-- `mospf_checksum` of the header in a packet
unfoldable pub mospf_checksum : List ℕ → ℕ
unfolding checksum be16
mospf_checksum packet =
    let mospf : List ℕ = drop (hdr_at packet) packet in
    checksum (take (be16 2 mospf) (set (set mospf 12 0) 13 0)) 0

abbrev pub read_lsa : List ℕ → Lsa
read_lsa bytes = record { subnet = be32 0 bytes; mask = be32 4 bytes; rid = be32 8 bytes }

-- The `n` elements of the array at the front of `bytes`. `none` is a read past the end of the packet.
unfoldable pub read_lsas : ℕ → List ℕ → Option (List Lsa)
unfolding be32
read_lsas zero bytes = some []
read_lsas (suc n) bytes =
    let rest = on_some (λ lsas. some (read_lsa bytes ∷ lsas)) (read_lsas n (drop 12 bytes)) in
    if ltb (length bytes) 12 then none else rest
