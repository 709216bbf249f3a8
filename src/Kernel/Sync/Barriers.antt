-- ===== src/Kernel/Sync/Barriers.antt =====
-- A barrier holds back the tasks that arrive until there are `n` of them, and then lets all of them go.
use ucas_coursework.Prelude.{
  ℕ, ◌+◌, ◌<◌, ◌≡◌, refl, none, some, List, [], ◌∷◌, ◌++◌, arith, leb, length, length-append, ◌↔◌,
  ◌≢◌, Option, Bool-cases, inl, inr, ap,
}
use ucas_coursework.Kernel.Sched.{Kernel, return, block}
use ucas_coursework.Kernel.Sched.Frame.{block-Blocked}
use ucas_coursework.Kernel.Sync.{
  switched, value, Outcome, set_m, unblock_all, barrier_init, barrier_wait, switches,
}
use ucas_coursework.Kernel.Sync.Wake.{unblock_all-Released}

-- `m` counts the tasks in the wait queue, and they are fewer than `n`.
pub record IsBarrier (b : ℕ) (k : Kernel) : Type 0 where
  pub counted : (k.barrier b).m ≡ length (k.waiting b)
  pub fewer : length (k.waiting b) < (k.barrier b).n

-- `barrier_init` with `n` above 0 makes a barrier at which nobody waits.
pub barrier_init-IsBarrier :
    (b n : ℕ) (k : Kernel)
    → 0 < n
    → IsBarrier b (barrier_init b n k) × ((barrier_init b n k).waiting b ≡ [])
unfolding barrier_init
barrier_init-IsBarrier b n k h =
    (record { counted = ground arith; fewer = ground arith }, ground arith)

-- What `barrier_wait` ends in for the task that is not the last to arrive.
pub record HeldBack (b : ℕ) (k k' : Kernel) : Type 0 where
  pub queued : k'.waiting b ≡ k.waiting b ++ (k.current ∷ [])
  pub kept : IsBarrier b k'
  pub same_n : (k'.barrier b).n ≡ (k.barrier b).n

-- What it ends in for the last: it and all the tasks that waited go on.
pub record LetGo (b : ℕ) (k k' : Kernel) : Type 0 where
  pub ready : k'.ready_queue ≡ k.ready_queue ++ k.waiting b
  pub goes_on : k'.current ≡ k.current
  pub emptied : k'.waiting b ≡ []
  pub kept : IsBarrier b k'
  pub same_n : (k'.barrier b).n ≡ (k.barrier b).n

abbrev pub BarrierOutcome : ℕ → Kernel → Outcome → Type 0
BarrierOutcome b k none = Unit {0}
BarrierOutcome b k (some (switched, k')) = HeldBack b k k'
BarrierOutcome b k (some (value v, k')) = LetGo b k k'

switched_out :
    {b : ℕ} {k : Kernel} (o : Option Kernel)
    → ((k' : Kernel) → o ≡ some k' → HeldBack b k k')
    → BarrierOutcome b k (switches o)
switched_out none h = tt
switched_out (some k') h = h k' refl

switches-ne-value : (o : Option Kernel) {v : ℕ} {k : Kernel} → switches o ≢ some (value v, k)
switches-ne-value none e = cc
switches-ne-value (some k') e = cc

held_back :
    (ticks : List ℕ) (b : ℕ) (k : Kernel) {k' : Kernel}
    → IsBarrier b k
    → length (k.waiting b) + 1 < (k.barrier b).n
    → block ticks b return (set_m b ((k.barrier b).m + 1) k) ≡ some k'
    → HeldBack b k k'
held_back ticks b k {k'} i early e =
    let o = block-Blocked ticks b return (set_m b ((k.barrier b).m + 1) k) e in
    let barrier = ap (λ w. w b) o.barriers in
    let more = length-append (k.waiting b) (k.current ∷ []) in
    record {
      queued = o.queue;
      kept = record {
        counted = rw (barrier, o.queue) (ground (arith, more, i.counted));
        fewer = rw (barrier, o.queue) (ground (arith, more));
      };
      same_n = rw barrier (ground arith);
    }

let_go : (b : ℕ) (k : Kernel) → IsBarrier b k → LetGo b k (unblock_all b (set_m b 0 k))
let_go b k i =
    let o = unblock_all-Released b (set_m b 0 k) in
    let barrier = ap (λ w. w b) o.barriers in
    record {
      ready = o.ready;
      goes_on = o.running;
      emptied = o.left;
      kept = record {
        counted = rw (barrier, o.left) (ground arith);
        fewer = rw (barrier, o.left) (ground (arith, i.fewer));
      };
      same_n = rw barrier (ground arith);
    }

-- `barrier_wait` holds the running task back if fewer than `n` tasks have come with it; the `n`-th goes
-- on, and makes all that waited ready in the order in which they came. Either way the count is right.
pub barrier_wait_lem :
    (ticks : List ℕ) (b : ℕ) (k : Kernel)
    → IsBarrier b k
    → BarrierOutcome b k (barrier_wait ticks b k)
      × ((barrier_wait ticks b k ≡ some (value 0, unblock_all b (set_m b 0 k)))
          ↔ (length (k.waiting b) + 1 ≡ (k.barrier b).n))
unfolding barrier_wait
barrier_wait_lem ticks b k i = elim (Bool-cases (leb (k.barrier b).n ((k.barrier b).m + 1))) [
  | inl last ↦ rw last (let_go b k i, (λ _. ground (arith, i.counted, i.fewer), λ _. refl))
  | inr early ↦ rw early (
    switched_out (block ticks b return (set_m b ((k.barrier b).m + 1) k))
        (λ k' e. held_back ticks b k i (ground (arith, i.counted)) e),
    (λ e. absurd (switches-ne-value _ e), λ e. absurd (ground (arith, i.counted))),
  )
]
