-- ===== src/Kernel/Sync/Semaphores.antt =====
-- A semaphore never has both a positive value and a waiter, and no unit is lost or made.
use ucas_coursework.Prelude.{
  ℕ, ◌+◌, ◌<◌, ◌≡◌, refl, true, false, Option, none, some, List, [], ◌∷◌, ◌++◌, arith, length,
  is_nil, length-append, Bool-cases, inl, inr, update, ◌==◌, ap, ◌∙◌,
}
use ucas_coursework.Kernel.Sched.{Kernel, return, block}
use ucas_coursework.Kernel.Sched.Frame.{block-Blocked}
use ucas_coursework.Kernel.Sync.{
  switched, value, Outcome, unblock_one, semaphore_up, semaphore_down, switches,
}
use ucas_coursework.Kernel.Sync.Wake.{unblock_one-Released}

-- A task waits only where the value is 0.
abbrev pub IsSemaphore : ℕ → Kernel → Type 0
IsSemaphore s k = is_nil (k.waiting s) ≡ false → k.semaphore s ≡ 0

-- From `k` to `k'` the units that the semaphore holds, less those that its waiters ask for, go from
-- `gave` to `got`: value' + waiters + gave ≡ value + waiters' + got.
abbrev pub Balance : ℕ → ℕ → ℕ → Kernel → Kernel → Type 0
Balance s gave got k k' =
    k'.semaphore s + length (k.waiting s) + gave ≡ k.semaphore s + length (k'.waiting s) + got

pub record Up (s : ℕ) (k k' : Kernel) : Type 0 where
  pub kept : IsSemaphore s k'
  pub balance : Balance s 0 1 k k'
  pub first_ready :
      (t : ℕ) (ts : List ℕ) → k.waiting s ≡ t ∷ ts → k'.ready_queue ≡ k.ready_queue ++ (t ∷ [])
  pub goes_on : k'.current ≡ k.current

abbrev counted_up : ℕ → Kernel → Kernel
counted_up s k = record k { semaphore = update k.semaphore s (k.semaphore s + 1) }

up_counts : (s : ℕ) (k : Kernel) → k.waiting s ≡ [] → semaphore_up s k ≡ counted_up s k
unfolding semaphore_up
up_counts s k e =
    let none_waits : is_nil (k.waiting s) ≡ true = ap is_nil e in
    elim (Bool-cases (k.semaphore s == 0)) [
      | inl z ↦ rw (none_waits, z)
      | inr p ↦ rw (none_waits, p)
    ]

up_wakes :
    (s : ℕ) (k : Kernel)
    → is_nil (k.waiting s) ≡ false
    → k.semaphore s ≡ 0
    → semaphore_up s k ≡ (unblock_one s k).1
unfolding semaphore_up
up_wakes s k e z = let at_zero : (k.semaphore s == 0) ≡ true = ground arith in rw (at_zero, e)

-- `semaphore_up` adds one unit: it makes the first waiter ready, or counts the value up where there is
-- none; and the caller goes on.
pub semaphore_up_lem : (s : ℕ) (k : Kernel) → IsSemaphore s k → Up s k (semaphore_up s k)
semaphore_up_lem s k i = go (k.waiting s) refl
  where
    go : (ts : List ℕ) → k.waiting s ≡ ts → Up s k (semaphore_up s k)
    go [] e = rw (up_counts s k e) (record {
      kept = λ w. ground (arith, ap is_nil e);
      balance = ground arith;
      first_ready = λ t ts e'. cc;
      goes_on = refl;
    })
    go (t ∷ ts) e =
        let r = unblock_one-Released s t ts k e in
        let z = i (ap is_nil e) in
        let units = ap (λ f. f s) r.semaphores in
        rw (up_wakes s k (ap is_nil e) z) (record {
          kept = λ w. units ∙ z;
          balance = ground (arith, units, ap length e, ap length r.left);
          first_ready = λ t' ts' e'. r.ready ∙ ground (arith, e', e);
          goes_on = r.running;
        })

-- What `semaphore_down` ends in: the caller has a unit and goes on, or it waits behind the others.
pub record Took (s : ℕ) (k k' : Kernel) : Type 0 where
  pub kept : IsSemaphore s k'
  pub balance : Balance s 1 0 k k'
  pub goes_on : k'.current ≡ k.current
  pub had_one : 0 < k.semaphore s

pub record Waits (s : ℕ) (k k' : Kernel) : Type 0 where
  pub kept : IsSemaphore s k'
  pub balance : Balance s 1 0 k k'
  pub queued : k'.waiting s ≡ k.waiting s ++ (k.current ∷ [])
  pub none_left : k.semaphore s ≡ 0

abbrev pub DownOutcome : ℕ → Kernel → Outcome → Type 0
DownOutcome s k none = Unit {0}
DownOutcome s k (some (switched, k')) = Waits s k k'
DownOutcome s k (some (value v, k')) = Took s k k'

down_waits :
    (ticks : List ℕ) (s : ℕ) (k : Kernel) (o : Option Kernel)
    → k.semaphore s ≡ 0
    → block ticks s return k ≡ o
    → DownOutcome s k (switches o)
down_waits ticks s k none z e = tt
down_waits ticks s k (some k') z e =
    let b = block-Blocked ticks s return k e in
    let units = ap (λ f. f s) b.semaphores in
    record {
      kept = λ w. units ∙ z;
      balance =
          ground (arith, units, ap length b.queue, length-append (k.waiting s) (k.current ∷ []));
      queued = b.queue;
      none_left = z;
    }

-- `semaphore_down` takes one unit where there is one, and otherwise the caller is blocked behind the
-- tasks that wait: in each case one unit more is taken or asked for.
pub semaphore_down_lem :
    (ticks : List ℕ) (s : ℕ) (k : Kernel)
    → IsSemaphore s k
    → DownOutcome s k (semaphore_down ticks s k)
unfolding semaphore_down
semaphore_down_lem ticks s k i = elim (Bool-cases (k.semaphore s == 0)) [
  | inl z ↦ rw z (down_waits ticks s k (block ticks s return k) (ground arith) refl)
  | inr p ↦ rw p (record {
    kept = λ w. ground (arith, i w);
    balance = ground arith;
    goes_on = refl;
    had_one = ground arith;
  })
]
