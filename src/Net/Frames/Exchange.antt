-- ===== src/Net/Frames/Exchange.antt =====
-- A request of one host for the address of another, and the answer.
use ucas_coursework.Prelude.{
  ℕ, ◌+◌, ◌*◌, ◌/◌, ◌%◌, ◌^◌, ◌<◌, ◌≡◌, refl, List, [], ◌∷◌, arith, ==_refl, length, replicate,
}
use ucas_coursework.Net.Types.{Iface, frame}
use ucas_coursework.Net.Arp.{ArpCache, arpcache_insert}
use ucas_coursework.Net.Ip.{be16, be32}
use ucas_coursework.Net.Frames.{
  be_bytes, slice, arp_frame, arp_send_request, arp_send_reply, and_sent, handle_arp_packet,
}

pub number :
    (n : ℕ)
    → n < 2 ^ 32
    → ((n / 2 ^ 24 % 256 * 256 + n / 2 ^ 16 % 256) * 256 + n / 2 ^ 8 % 256) * 256 + n % 256 ≡ n
number n h = omega arith

pub six : (mac : List ℕ) → length mac ≡ 6 → (a b c d e f : ℕ) × (mac ≡ a ∷ b ∷ c ∷ d ∷ e ∷ f ∷ [])
six (a ∷ b ∷ c ∷ d ∷ e ∷ f ∷ []) h = (a, b, c, d, e, f, refl)
six [] h = absurd (omega (arith, h))
six (a ∷ []) h = absurd (omega (arith, h))
six (a ∷ b ∷ []) h = absurd (omega (arith, h))
six (a ∷ b ∷ c ∷ []) h = absurd (omega (arith, h))
six (a ∷ b ∷ c ∷ d ∷ []) h = absurd (omega (arith, h))
six (a ∷ b ∷ c ∷ d ∷ e ∷ []) h = absurd (omega (arith, h))
six (a ∷ b ∷ c ∷ d ∷ e ∷ f ∷ g ∷ l) h = absurd (omega (arith, h))

-- What a frame of ARP says, read back at the offsets of `handle_arp_packet`.
record Says (op : ℕ) (mac : List ℕ) (spa tpa : ℕ) (packet : List ℕ) : Type 0 where
  opcode : be16 20 packet ≡ op
  sender : slice 22 6 packet ≡ mac
  sender_ip : be32 28 packet ≡ spa
  sender_bytes : slice 28 4 packet ≡ be_bytes spa
  target_ip : be32 38 packet ≡ tpa

arp_frame-Says :
    (dhost mac tha : List ℕ) (op spa tpa : ℕ)
    → length dhost ≡ 6
    → length mac ≡ 6
    → length tha ≡ 6
    → spa < 2 ^ 32
    → tpa < 2 ^ 32
    → Says op mac spa tpa (arp_frame dhost mac op spa tha (be_bytes tpa))
unfolding be16 be32
arp_frame-Says dhost mac tha op spa tpa ld lm lt ls lp =
    let (d₀, d₁, d₂, d₃, d₄, d₅, ed) = six dhost ld in
    let (m₀, m₁, m₂, m₃, m₄, m₅, em) = six mac lm in
    let (t₀, t₁, t₂, t₃, t₄, t₅, et) = six tha lt in
    rw (ed, em, et)
      (record {
        opcode = omega arith;
        sender = refl;
        sender_ip = number spa ls;
        sender_bytes = refl;
        target_ip = number tpa lp;
      })

module _ (now random : ℕ) (host : Iface) (mac : List ℕ) (spa : ℕ) (packet : List ℕ)
    (cache : ArpCache) where
  handle-request :
      Says 1 mac spa host.ip packet
      → handle_arp_packet now random host packet cache
        ≡ and_sent
            (frame host (arp_frame mac host.mac 2 host.ip mac (be_bytes spa)) 42 ∷ [])
            (arpcache_insert now random spa mac cache)
  unfolding handle_arp_packet arp_send_reply
  handle-request s =
      rw (s.opcode, s.target_ip, ==_refl host.ip, s.sender_ip, s.sender, s.sender_bytes)

  handle-reply :
      Says 2 mac spa host.ip packet
      → handle_arp_packet now random host packet cache ≡ arpcache_insert now random spa mac cache
  unfolding handle_arp_packet
  handle-reply s = rw (s.opcode, s.target_ip, ==_refl host.ip, s.sender_ip, s.sender)

abbrev pub request_frame : Iface → Iface → List ℕ
request_frame a b = arp_frame (replicate 6 255) a.mac 1 a.ip (replicate 6 0) (be_bytes b.ip)

abbrev pub reply_frame : Iface → Iface → List ℕ
reply_frame a b = arp_frame a.mac b.mac 2 b.ip a.mac (be_bytes a.ip)

-- The frame that `arp_send_request` at `a` sends for the address of `b` makes `b` insert the addresses
-- of `a` into its ARP cache and send a frame that makes `a` insert those of `b`. Hardware addresses have
-- 6 bytes and IP addresses 32 bits.
pub arp_exchange :
    (a b : Iface)
    → length a.mac ≡ 6
    → length b.mac ≡ 6
    → a.ip < 2 ^ 32
    → b.ip < 2 ^ 32
    → (arp_send_request a b.ip ≡ frame a (request_frame a b) 42)
      × ((now random : ℕ) (cache : ArpCache)
          → handle_arp_packet now random b (request_frame a b) cache
            ≡ and_sent
                (frame b (reply_frame a b) 42 ∷ [])
                (arpcache_insert now random a.ip a.mac cache))
      × ((now random : ℕ) (cache : ArpCache)
          → handle_arp_packet now random a (reply_frame a b) cache
            ≡ arpcache_insert now random b.ip b.mac cache)
unfolding arp_send_request
arp_exchange a b la lb ia ib = (
  refl,
  λ now random cache.
      handle-request now random b a.mac a.ip (request_frame a b) cache
        (arp_frame-Says (replicate 6 255) a.mac (replicate 6 0) 1 a.ip b.ip refl la refl ia ib),
  λ now random cache.
      handle-reply now random a b.mac b.ip (reply_frame a b) cache
        (arp_frame-Says a.mac b.mac a.mac 2 b.ip a.ip la lb la ib ia),
)
