-- ===== src/Nat/Reply.antt =====
-- A reply comes back to the host that nat.c of Computer Networks/pr4-网络地址转换实验 gave a port to.
use ucas_coursework.Prelude.{
  ℕ, zero, suc, ◌+◌, ◌≡◌, ◌≢◌, refl, ap, ◌∙◌, Bool, true, false, none, some, List, [], ◌∷◌, ◌++◌,
  ◌==◌, ==_refl, ==_ne, All, Bool-cases, inl, inr, update,
}
use ucas_coursework.Nat.{
  Packet, Mapping, NatTable, dir_in, dir_out, find_port, free_port, free_port_index_get,
}
use ucas_coursework.Nat.Translate.{
  find_mapping, to_mapping, from_mapping, new_mapping, note_internal, note_external, used_mapping,
  translate_in, translate_out, do_translation, nat_index,
}

find_port-next :
    (n port : ℕ) (assigned : ℕ → Bool)
    → assigned port ≡ true
    → find_port (suc n) port assigned ≡ find_port n (port + 1) assigned
unfolding find_port
find_port-next n port assigned taken = rw (taken, find_port) refl

find_port-free :
    (n port : ℕ) (assigned : ℕ → Bool)
    → find_port n port assigned ≢ 0
    → assigned (find_port n port assigned) ≡ false
unfolding find_port
find_port-free zero port assigned h = absurd (h refl)
find_port-free (suc n) port assigned h = elim (Bool-cases (assigned port)) [
  | inl taken ↦
      let next = find_port-next n port assigned taken in
      rw next (find_port-free n (port + 1) assigned (λ e. h (next ∙ e)))
  | inr free ↦ rw (free, find_port) free
]

-- The mapping behind those whose ports are assigned.
find_mapping-new :
    (p : Packet) (assigned : ℕ → Bool) (ms : List Mapping) (m : Mapping)
    → All (λ k. assigned k.external_port ≡ true) ms
    → assigned p.dport ≡ false
    → to_mapping p m ≡ true
    → find_mapping (to_mapping p) (ms ++ (m ∷ [])) ≡ some m
find_mapping-new p assigned [] m all free hit = rw hit refl
find_mapping-new p assigned (k ∷ ms) m all free hit =
    let other : (p.dport == k.external_port) ≡ false =
      ==_ne p.dport k.external_port (λ e. cc (free, all.0, e)) in
    let rest = find_mapping-new p assigned ms m all.1 free hit in
    elim (Bool-cases (p.daddr == k.external_ip)) [
      | inl address ↦ rw (address, other) rest
      | inr apart ↦ rw apart rest
    ]

-- What a server sends back to the port.
abbrev pub reply : NatTable → Packet → ℕ → ℕ → ℕ → Packet
reply n p seq ack flags = record {
  saddr = p.daddr;
  daddr = n.external_iface;
  sport = p.dport;
  dport = free_port n.assigned_ports;
  seq = seq;
  ack = ack;
  flags = flags;
  protocol = p.protocol;
}

-- The table with the mapping of a packet from inside.
abbrev opened : ℕ → NatTable → Packet → NatTable
opened now n p =
    let h : ℕ = nat_index p.daddr p.dport in
    let (port, assigned) = free_port_index_get n.assigned_ports in
    record n {
      mapping_list =
          update n.mapping_list h
            (n.mapping_list h ++ (new_mapping now n.external_iface port p ∷ []));
      assigned_ports = assigned;
    }

opened-bucket :
    (now : ℕ) (n : NatTable) (p : Packet)
    → let h : ℕ = nat_index p.daddr p.dport in
      (opened now n p).mapping_list h
      ≡ n.mapping_list h ++ (new_mapping now n.external_iface (free_port n.assigned_ports) p ∷ [])
unfolding free_port_index_get
opened-bucket now n p = rw (==_refl (nat_index p.daddr p.dport)) refl

new-hit :
    (now seq ack flags : ℕ) (n : NatTable) (p : Packet)
    → to_mapping
        (reply n p seq ack flags)
        (new_mapping now n.external_iface (free_port n.assigned_ports) p)
      ≡ true
unfolding new_mapping note_internal
new-hit now seq ack flags n p =
    rw (==_refl n.external_iface, ==_refl (free_port n.assigned_ports)) refl

translate_out-opened :
    (now : ℕ) (n : NatTable) (p : Packet)
    → (p.flags == 4) ≡ false
    → translate_out none now (nat_index p.daddr p.dport) n p
      ≡ some (
        record p { saddr = n.external_iface; sport = free_port n.assigned_ports },
        opened now n p,
      )
unfolding translate_out free_port_index_get new_mapping note_internal
translate_out-opened now n p no_rst = rw no_rst refl

-- A packet from inside that opens a connection, while a port is free and all ports in its bucket are
-- marked: it leaves with the address of the external interface and the port, and a packet from the server
-- to that address and port is sent on to the host and port that the first came from.
pub do_translation-reply :
    (now now' seq ack flags : ℕ) (n : NatTable) (p : Packet)
    → (p.flags == 4) ≡ false
    → find_mapping (from_mapping p) (n.mapping_list (nat_index p.daddr p.dport)) ≡ none
    → All
        (λ k. n.assigned_ports k.external_port ≡ true)
        (n.mapping_list (nat_index p.daddr p.dport))
    → free_port n.assigned_ports ≢ 0
    → (n' : NatTable) × (n'' : NatTable) × (do_translation now dir_out n p
        ≡ some (record p { saddr = n.external_iface; sport = free_port n.assigned_ports }, n'))
      × (do_translation now' dir_in n' (reply n p seq ack flags)
          ≡ some (record (reply n p seq ack flags) { daddr = p.saddr; dport = p.sport }, n''))
unfolding do_translation translate_in free_port new_mapping note_internal
do_translation-reply now now' seq ack flags n p no_rst new all free =
    let h : ℕ = nat_index p.daddr p.dport in
    let n' = opened now n p in
    let r = reply n p seq ack flags in
    let m = new_mapping now n.external_iface (free_port n.assigned_ports) p in
    let hit =
      find_mapping-new r n.assigned_ports (n.mapping_list h) m all
        (find_port-free 11112 12345 n.assigned_ports free) (new-hit now seq ack flags n p) in
    let found = ap (find_mapping (to_mapping r)) (opened-bucket now n p) ∙ hit in
    (
      n',
      used_mapping (to_mapping r) h r (note_external now' r m) n',
      ap (λ o. translate_out o now h n p) new ∙ translate_out-opened now n p no_rst,
      ap (λ o. translate_in o now' h n' r) found,
    )
