-- ===== src/Nat/Sweep.antt =====
-- `nat_timeout` of nat.c, Computer Networks/pr4-网络地址转换实验.
use ucas_coursework.Prelude.{
  ℕ, zero, suc, ◌-◌, Bool, false, List, [], ◌∷◌, ltb, ◌&&◌, ◌||◌, if◌then◌else◌, update,
}
use ucas_coursework.Nat.{Mapping, NatTable}

-- A finished flow, or one without a packet for more than 60 seconds.
unfoldable pub is_over : ℕ → Mapping → Bool
is_over now m = m.conn.internal_fin && m.conn.external_fin || ltb 60 (now - m.update_time)

-- The loop of `nat_timeout` over a bucket.
unfoldable pub sweep_bucket : ℕ → List Mapping → (ℕ → Bool) → List Mapping × (ℕ → Bool)
unfolding is_over
sweep_bucket now [] assigned = ([], assigned)
sweep_bucket now (m ∷ ms) assigned =
    let over : Bool = is_over now m in
    let (kept, assigned') =
      sweep_bucket now ms (if over then update assigned m.external_port false else assigned) in
    (if over then kept else m ∷ kept, assigned')

-- The first `n` buckets.
unfoldable pub sweep_buckets : ℕ → ℕ → NatTable → NatTable
unfolding sweep_bucket
sweep_buckets now zero t = t
sweep_buckets now (suc i) t =
    let t₁ = sweep_buckets now i t in
    let (kept, assigned) = sweep_bucket now (t₁.mapping_list i) t₁.assigned_ports in
    record t₁ { mapping_list = update t₁.mapping_list i kept; assigned_ports = assigned }

-- One round of `nat_timeout`.
unfoldable pub nat_timeout : ℕ → NatTable → NatTable
unfolding sweep_buckets
nat_timeout now t = sweep_buckets now 256 t
