-- ===== src/Switch.antt =====
-- The MAC table of the switch, mac.c and include/mac.h of Computer Networks/pr2-交换机转发实验. A bucket is a
-- list of entries; `now` is what `time` returns; `none` is a use of NULL. The mutex is left out.
pub mod Sweep
pub mod Learn
mod Tests
use Prim.Native.Nat.{bit_xor}
use ucas_coursework.Prelude.{
  ℕ, zero, suc, ◌+◌, Bool, true, false, Option, none, some, List, [], ◌∷◌, ◌==◌, leb, ◌&&◌,
  if◌then◌else◌, update, on_some,
}

-- `mac_port_entry_t`; an interface is named by its number.
pub record MacPortEntry : Type 0 where
  pub mac : List ℕ
  pub iface : ℕ
  pub visited : ℕ

abbrev pub mac_port_timeout : ℕ
mac_port_timeout = 30

-- `hash8` on the bytes of an address
unfoldable pub hash_bytes : List ℕ → ℕ
hash_bytes [] = 0
hash_bytes (b ∷ bytes) = bit_xor b (hash_bytes bytes)

-- `bcmp` of two addresses is zero.
unfoldable pub same_mac : List ℕ → List ℕ → Bool
same_mac [] [] = true
same_mac [] (y ∷ ys) = false
same_mac (x ∷ xs) [] = false
same_mac (x ∷ xs) (y ∷ ys) = x == y && same_mac xs ys

unfoldable pub init_mac_hash_table : ℕ → List MacPortEntry
init_mac_hash_table h = []

-- The search along a bucket: the interface, and the bucket with the entry marked as visited.
unfoldable pub lookup_in : ℕ → List ℕ → List MacPortEntry → Option ℕ × List MacPortEntry
unfolding same_mac
lookup_in now mac [] = (none, [])
lookup_in now mac (e ∷ es) =
    let (found, rest) = lookup_in now mac es in
    if same_mac mac e.mac
    then (some e.iface, record e { visited = now } ∷ es)
    else (found, e ∷ rest)

unfoldable pub lookup_port :
    ℕ → List ℕ → (ℕ → List MacPortEntry) → Option ℕ × (ℕ → List MacPortEntry)
unfolding hash_bytes lookup_in
lookup_port now mac table =
    let h : ℕ = hash_bytes mac in
    let (found, bucket) = lookup_in now mac (table h) in (found, update table h bucket)

unfoldable pub insert_mac_port : ℕ → List ℕ → ℕ → (ℕ → List MacPortEntry) → ℕ → List MacPortEntry
unfolding hash_bytes
insert_mac_port now mac iface table =
    let h : ℕ = hash_bytes mac in
    update table h (record { mac = mac; iface = iface; visited = now } ∷ table h)

abbrev pub aged : ℕ → MacPortEntry → Bool
aged now e = leb (mac_port_timeout + e.visited) now

abbrev pub counted : ℕ × List MacPortEntry → ℕ × List MacPortEntry
counted (n, es) = (n + 1, es)

abbrev pub kept : MacPortEntry → ℕ × List MacPortEntry → ℕ × List MacPortEntry
kept e (n, es) = (n, e ∷ es)

-- The first loop, on a list that is not empty: it looks at the node behind the next one before it knows
-- that there is one.
unfoldable pub drop_front : ℕ → MacPortEntry → List MacPortEntry → Option (ℕ × List MacPortEntry)
drop_front now e [] = if aged now e then none else some (0, e ∷ [])
drop_front now e (f ∷ es) =
    let rest = drop_front now f es in
    if aged now e then on_some (λ p. some (counted p)) rest else some (0, e ∷ f ∷ es)

-- The second loop, behind the first entry: `tmp` is the node behind `cur`, and its next is read in both
-- cases, also where it is NULL.
unfoldable pub walk : ℕ → List MacPortEntry → Option (ℕ × List MacPortEntry)
walk now [] = some (0, [])
walk now (e ∷ []) = none
walk now (e ∷ f ∷ es) =
    let rest = walk now (f ∷ es) in
    if aged now e then on_some (λ p. some (counted p)) rest else on_some (λ p. some (kept e p)) rest

abbrev pub add_count : ℕ → ℕ × List MacPortEntry → ℕ × List MacPortEntry
add_count k (n, es) = (k + n, es)

-- From the first loop to the second.
unfoldable pub walk_behind : ℕ × List MacPortEntry → ℕ → Option (ℕ × List MacPortEntry)
unfolding walk
walk_behind (k, []) now = some (k, [])
walk_behind (k, e ∷ es) now = on_some (λ p. some (add_count k (kept e p))) (walk now es)

-- The number of entries removed from a bucket, and the bucket. One entry alone is passed over.
unfoldable pub sweep_chain : ℕ → List MacPortEntry → Option (ℕ × List MacPortEntry)
unfolding drop_front walk_behind
sweep_chain now [] = some (0, [])
sweep_chain now (e ∷ []) = some (0, e ∷ [])
sweep_chain now (e ∷ f ∷ es) = on_some (λ p. walk_behind p now) (drop_front now e (f ∷ es))

-- The first `n` of the 256 buckets.
unfoldable pub sweep_chains : ℕ → ℕ → (ℕ → List MacPortEntry) → Option (ℕ × (ℕ → List MacPortEntry))
unfolding sweep_chain
sweep_chains now zero table = some (0, table)
sweep_chains now (suc i) table =
    on_some (λ p. on_some (λ q. some (p.0 + q.0, update p.1 i q.1)) (sweep_chain now (p.1 i)))
      (sweep_chains now i table)

unfoldable pub sweep_aged_mac_port_entry :
    ℕ → (ℕ → List MacPortEntry) → Option (ℕ × (ℕ → List MacPortEntry))
unfolding sweep_chains
sweep_aged_mac_port_entry now table = sweep_chains now 256 table
