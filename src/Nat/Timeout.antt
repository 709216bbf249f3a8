-- ===== src/Nat/Timeout.antt =====
-- What a round of `nat_timeout` of nat.c of Computer Networks/pr4-网络地址转换实验 removes.
use ucas_coursework.Prelude.{
  ℕ, zero, suc, ◌+◌, Bool, false, List, [], ◌∷◌, ◌==◌, ltb, ◌&&◌, ◌||◌, if◌then◌else◌,
}
use ucas_coursework.Nat.{Mapping}

-- A mapping is finished: both sides have sent a FIN, or its last packet is more than 60 seconds ago.
unfoldable pub finished : ℕ → Mapping → Bool
finished now m = ltb (m.update_time + 60) now || (m.conn.internal_fin && m.conn.external_fin)

-- The mappings that are not finished.
unfoldable pub live : ℕ → List Mapping → List Mapping
unfolding finished
live now [] = []
live now (m ∷ ms) = let rest = live now ms in if finished now m then rest else m ∷ rest

-- Whether a mapping with the port is finished.
unfoldable pub frees : ℕ → ℕ → List Mapping → Bool
unfolding finished
frees now port [] = false
frees now port (m ∷ ms) = finished now m && port == m.external_port || frees now port ms

-- The same for the first `n` buckets.
unfoldable pub frees_below : ℕ → ℕ → (ℕ → List Mapping) → ℕ → Bool
unfolding frees
frees_below now port lists zero = false
frees_below now port lists (suc i) = frees now port (lists i) || frees_below now port lists i
