-- ===== src/Kernel/Sched/Wake.antt =====
-- Which sleepers `check_sleeping` wakes, and in what order.
use Prim.Native.Nat.{ℕ, zero, suc, ◌<◌, ◌≤◌}
use ucas_coursework.Prelude.{
  ◌≡◌, refl, true, false, List, [], ◌∷◌, ◌++◌, arith, leb, if◌then◌else◌, length, append-nil,
  append_assoc, Bool-cases, inl, inr, ap, ◌∙◌,
}
use ucas_coursework.Kernel.Sched.{Kernel, wake_front, due, check_sleeping_loop, check_sleeping}

-- The sleepers up to the first whose deadline has not come, and the others.
unfoldable pub take_due : (ℕ → ℕ) → ℕ → List ℕ → List ℕ
take_due deadline now [] = []
take_due deadline now (t ∷ ts) = if leb (deadline t) now then t ∷ take_due deadline now ts else []

unfoldable pub drop_due : (ℕ → ℕ) → ℕ → List ℕ → List ℕ
drop_due deadline now [] = []
drop_due deadline now (t ∷ ts) = if leb (deadline t) now then drop_due deadline now ts else t ∷ ts

-- What `check_sleeping` has made of `k` when it stops, `ts` being the sleepers.
pub record Woken (d : ℕ → ℕ) (k : Kernel) (ts : List ℕ) (k' : Kernel) : Type 0 where
  pub ready : k'.ready_queue ≡ k.ready_queue ++ take_due d k.time_elapsed ts
  pub asleep : k'.sleep_wait_queue ≡ drop_due d k.time_elapsed ts
  pub time : k'.time_elapsed ≡ k.time_elapsed
  pub waiting : k'.waiting ≡ k.waiting
  pub running : k'.current ≡ k.current
  pub deadlines : (t : ℕ) → (k'.pcb t).deadline ≡ d t

loop_stops :
    (k : Kernel) (ts : List ℕ) (fuel : ℕ)
    → k.sleep_wait_queue ≡ ts
    → due ts k ≡ false
    → check_sleeping_loop fuel k ≡ k
unfolding check_sleeping_loop
loop_stops k ts zero e stop = refl
loop_stops k ts (suc f) e stop =
    let stop' : due k.sleep_wait_queue k ≡ false = ap (λ l. due l k) e ∙ stop in rw stop'

loop_goes :
    (k : Kernel) (ts : List ℕ) (fuel : ℕ)
    → k.sleep_wait_queue ≡ ts
    → due ts k ≡ true
    → check_sleeping_loop (suc fuel) k ≡ check_sleeping_loop fuel (wake_front ts k)
unfolding check_sleeping_loop
loop_goes k ts f e go =
    let go' : due k.sleep_wait_queue k ≡ true = ap (λ l. due l k) e ∙ go in
    rw go' (ap (λ l. check_sleeping_loop f (wake_front l k)) e)

module _ (d : ℕ → ℕ) where
  check_sleeping_loop-Woken :
      (ts : List ℕ) (k : Kernel) (fuel : ℕ)
      → ((t : ℕ) → (k.pcb t).deadline ≡ d t)
      → k.sleep_wait_queue ≡ ts
      → length ts ≤ fuel
      → Woken d k ts (check_sleeping_loop fuel k)
  unfolding take_due drop_due
  check_sleeping_loop-Woken [] k fuel same e enough = rw (loop_stops k [] fuel e refl) (record {
    ready = ground (arith, append-nil k.ready_queue);
    asleep = e;
    time = refl;
    waiting = refl;
    running = refl;
    deadlines = same;
  })
  check_sleeping_loop-Woken (t ∷ ts) k zero same e enough = absurd (omega arith)
  check_sleeping_loop-Woken (t ∷ ts) k (suc f) same e enough = elim (Bool-cases (due (t ∷ ts) k)) [
    | inl go ↦
        let k₁ : Kernel = wake_front (t ∷ ts) k in
        let w =
          check_sleeping_loop-Woken ts k₁ f (λ s. ground (arith, same s)) refl (omega arith) in
        let now : leb (d t) k.time_elapsed ≡ true = ground (arith, same t) in
        rw (loop_goes k (t ∷ ts) f e go) (record {
          ready =
              rw now (w.ready ∙ append_assoc k.ready_queue (t ∷ []) (take_due d k.time_elapsed ts));
          asleep = rw now w.asleep;
          time = w.time;
          waiting = w.waiting;
          running = w.running;
          deadlines = w.deadlines;
        })
    | inr stop ↦
        let later : leb (d t) k.time_elapsed ≡ false = ground (arith, same t) in
        rw (loop_stops k (t ∷ ts) (suc f) e stop) (record {
          ready = rw later (ground (arith, append-nil k.ready_queue));
          asleep = rw later e;
          time = refl;
          waiting = refl;
          running = refl;
          deadlines = same;
        })
  ]

abbrev pub deadlines : Kernel → ℕ → ℕ
deadlines k t = (k.pcb t).deadline

-- `check_sleeping` wakes the sleepers in front of the first whose deadline has not come, in their order
-- and behind the tasks that were ready, and changes nothing else that the scheduler reads.
pub check_sleeping-Woken :
    (k : Kernel) → Woken (deadlines k) k k.sleep_wait_queue (check_sleeping k)
unfolding check_sleeping
check_sleeping-Woken k =
    check_sleeping_loop-Woken (deadlines k) k.sleep_wait_queue k (length k.sleep_wait_queue)
      (λ t. refl) refl (omega arith)

-- A sleeper whose deadline has come is not woken while one in front of it has a later deadline: the
-- queue keeps the order in which the tasks went to sleep.
pub check_sleeping-behind :
    (k : Kernel) (s : ℕ) (ts : List ℕ)
    → k.sleep_wait_queue ≡ s ∷ ts
    → k.time_elapsed < (k.pcb s).deadline
    → check_sleeping k ≡ k
unfolding check_sleeping
check_sleeping-behind k s ts e later = loop_stops k (s ∷ ts) _ e (ground arith)
