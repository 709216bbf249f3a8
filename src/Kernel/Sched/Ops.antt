-- ===== src/Kernel/Sched/Ops.antt =====
-- Every operation of the scheduler keeps the invariant of Sched.Inv.
use ucas_coursework.Prelude.{
  ℕ, zero, suc, ◌%◌, ◌+◌, ◌^◌, ◌≡◌, refl, true, some, List, [], ◌∷◌, ◌++◌, arith, ◌∈◌, Distinct,
  Distinct-snoc, has-snoc, ◌==◌, is_nil, length, inl, inr, Bool-cases, some_inj,
}
use Prim.Native.Nat.{◌/◌}
use mathlib.Core.Path.{subst}
use ucas_coursework.Prelude.{ltb}
use ucas_coursework.Kernel.Sched.{
  Status, Cont, Pcb, Kernel, modify, set_status, set_saved, set_deadline, count_entry, leave_with,
  return, wake_front, due, check_sleeping_loop, check_sleeping, put_current_running, pick_front,
  pick, advance, idle, scheduler, do_sleep, do_yield, do_exit, block, unblock, timer_irq,
}
use ucas_coursework.Kernel.Sched.Inv.{
  runnable, Placed, IsValid, Free, current-Free, unblock-Placed, suspend-Placed, advance-Placed,
  modify-IsValid,
}

-- The round of `check_sleeping` on the sleepers `ts`.
wake_front-Placed :
    (k : Kernel) (ts : List ℕ) → Placed k → k.sleep_wait_queue ≡ ts → Placed (wake_front ts k)
wake_front-Placed k [] p e = p
wake_front-Placed k (t ∷ ts) p e =
    let once : Distinct (t ∷ ts) = rw e at p.asleep_once in
    let stays : (s : ℕ) → s ∈ (t ∷ ts) → (k.pcb s).status ≡ Status.sleeping =
      λ s i. p.asleep s (rw e i) in
    let napping : (k.pcb t).status ≡ Status.sleeping = stays t (ground arith) in
    record {
      ready = λ s i. ground (arith, p.ready s, has-snoc s k.ready_queue t);
      asleep = λ s i. ground (arith, stays s, once.0);
      waits = λ q s i. ground (arith, p.waits q s, napping);
      one_queue = p.one_queue;
      ready_once = Distinct-snoc t k.ready_queue p.ready_once (ground (arith, p.ready t, napping));
      asleep_once = once.1;
      waits_once = p.waits_once;
    }

check_sleeping_loop-Placed :
    (fuel : ℕ) (k : Kernel) → Placed k → Placed (check_sleeping_loop fuel k)
unfolding check_sleeping_loop
check_sleeping_loop-Placed zero k p = p
check_sleeping_loop-Placed (suc f) k p = elim (Bool-cases (due k.sleep_wait_queue k)) [
  | inl more ↦
      rw more (check_sleeping_loop-Placed f _ (wake_front-Placed k k.sleep_wait_queue p refl))
  | inr over ↦ rw over p
]

pub check_sleeping-Placed : (k : Kernel) → Placed k → Placed (check_sleeping k)
unfolding check_sleeping
check_sleeping-Placed k p = check_sleeping_loop-Placed (length k.sleep_wait_queue) k p

-- The kernel that `pick` leaves when `t` is the first of the ready tasks.
pick-Placed :
    (k : Kernel) (t : ℕ) (ts : List ℕ) (f : Pcb → Pcb)
    → Placed k
    → k.ready_queue ≡ t ∷ ts
    → ((x : Pcb) → (f x).status ≡ x.status)
    → IsValid (record (modify t f k) { current = t; ready_queue = ts })
pick-Placed k t ts f p e same =
    let once : Distinct (t ∷ ts) = rw e at p.ready_once in
    let may_run : (s : ℕ) → s ∈ (t ∷ ts) → runnable (k.pcb s).status ≡ true =
      λ s i. p.ready s (rw e i) in
    record {
      placed = record {
        ready = λ s i. ground (arith, may_run s, same (k.pcb t));
        asleep = λ s i. ground (arith, p.asleep s, same (k.pcb t));
        waits = λ q s i. ground (arith, p.waits q s, same (k.pcb t));
        one_queue = p.one_queue;
        ready_once = once.1;
        asleep_once = p.asleep_once;
        waits_once = p.waits_once;
      };
      runs = ground (arith, may_run t, same (k.pcb t));
      taken = once.0;
    }

pick_front-IsValid :
    (k : Kernel) (ts : List ℕ) {k' : Kernel}
    → Placed k
    → k.ready_queue ≡ ts
    → pick_front ts k ≡ some k'
    → IsValid k'
pick_front-IsValid k [] p e r = cc
pick_front-IsValid k (t ∷ ts) p e r =
    subst IsValid (some_inj r) (pick-Placed k t ts count_entry p e (λ x. refl))

pub pick-IsValid : (k : Kernel) {k' : Kernel} → Placed k → pick k ≡ some k' → IsValid k'
unfolding pick
pick-IsValid k p e = pick_front-IsValid k k.ready_queue p refl e

pub idle-IsValid :
    (ticks : List ℕ) (k : Kernel) {k' : Kernel} → Placed k → idle ticks k ≡ some k' → IsValid k'
unfolding idle
idle-IsValid [] k p e = pick-IsValid k p e
idle-IsValid (n ∷ ticks) k p e = elim (Bool-cases (is_nil k.ready_queue)) [
  | inl empty ↦
      idle-IsValid ticks _ (check_sleeping-Placed (advance n k) (advance-Placed k n p))
        (rw empty at e)
  | inr full ↦ pick-IsValid k p (rw full at e)
]

-- Whatever `scheduler` is called in, where each queue is in order, leaves a valid kernel.
pub scheduler-IsValid :
    (ticks : List ℕ) (k : Kernel) {k' : Kernel}
    → Placed k
    → scheduler ticks k ≡ some k'
    → IsValid k'
unfolding scheduler
scheduler-IsValid ticks k p e = idle-IsValid ticks _ (check_sleeping-Placed k p) e

put_current_running-Placed : (k : Kernel) → IsValid k → Placed (put_current_running k)
unfolding put_current_running
put_current_running-Placed k v =
    unfold unblock in unblock-Placed k k.current v.placed (current-Free k v)

-- `do_sleep` puts the running task on the sleep queue.
sleep-Placed :
    (k : Kernel) (f : Pcb → Pcb)
    → Placed k
    → Free k k.current
    → ((x : Pcb) → (f x).status ≡ Status.sleeping)
    → Placed (record (modify k.current f k) {
      sleep_wait_queue = k.sleep_wait_queue ++ (k.current ∷ []);
    })
sleep-Placed k f p free asleep = record {
  ready = λ s i. ground (arith, p.ready s, free.not_ready);
  asleep = λ s i.
      ground (arith, p.asleep s, asleep (k.pcb k.current), has-snoc s k.sleep_wait_queue k.current);
  waits = λ q s i. ground (arith, p.waits q s, free.not_waiting q);
  one_queue = p.one_queue;
  ready_once = p.ready_once;
  asleep_once = Distinct-snoc k.current k.sleep_wait_queue p.asleep_once free.not_asleep;
  waits_once = p.waits_once;
}

pub exit-Placed : (k : Kernel) → IsValid k → Placed (modify k.current (set_status Status.exited) k)
exit-Placed k v =
    let free = current-Free k v in
    let p = v.placed in
    record {
      ready = λ s i. ground (arith, p.ready s, free.not_ready);
      asleep = λ s i. ground (arith, p.asleep s, free.not_asleep);
      waits = λ q s i. ground (arith, p.waits q s, free.not_waiting q);
      one_queue = p.one_queue;
      ready_once = p.ready_once;
      asleep_once = p.asleep_once;
      waits_once = p.waits_once;
    }

-- Each operation of the scheduler keeps the kernel valid, also where it switches to another task.
module _ (ticks : List ℕ) (k : Kernel) {k' : Kernel} (v : IsValid k) where
  pub block-IsValid : (q : ℕ) (c : Cont) → block ticks q c k ≡ some k' → IsValid k'
  unfolding block
  block-IsValid q c e =
      scheduler-IsValid ticks _ (suspend-Placed k q c v.placed (current-Free k v)) e

  pub do_yield-IsValid : do_yield ticks k ≡ some k' → IsValid k'
  unfolding do_yield
  do_yield-IsValid e =
      scheduler-IsValid ticks _
        (put_current_running-Placed _ (modify-IsValid k.current (set_saved return) (λ x. refl) k v))
        e

  pub do_exit-IsValid : do_exit ticks k ≡ some k' → IsValid k'
  unfolding do_exit
  do_exit-IsValid e = scheduler-IsValid ticks _ (exit-Placed k v) e

  pub do_sleep-IsValid : (ms : ℕ) → do_sleep ticks ms k ≡ some k' → IsValid k'
  unfolding do_sleep
  do_sleep-IsValid ms e = elim (Bool-cases (ltb k.time_elapsed deadline)) [
    | inl sleeps ↦
        scheduler-IsValid ticks _
          (sleep-Placed (modify k.current (set_deadline deadline) k)
            (leave_with Status.sleeping return) timed.placed (current-Free _ timed) (λ x. refl))
          (rw sleeps at e)
    | inr stays ↦ subst IsValid (some_inj (rw stays at e)) timed
  ]
    where
      deadline : ℕ
      deadline = (k.time_elapsed + ms / 1000) % 2 ^ 64

      timed : IsValid (modify k.current (set_deadline deadline) k)
      timed = modify-IsValid k.current (set_deadline deadline) (λ x. refl) k v

advance-IsValid : (k : Kernel) (n : ℕ) → IsValid k → IsValid (advance n k)
advance-IsValid k n v = record {
  placed = advance-Placed k n v.placed;
  runs = v.runs;
  taken = v.taken;
}

-- A timer interrupt keeps the kernel valid, whether or not it preempts the running task.
pub timer_irq-IsValid :
    (ticks : List ℕ) (k : Kernel) {k' : Kernel}
    → IsValid k
    → timer_irq ticks k ≡ some k'
    → IsValid k'
unfolding timer_irq
timer_irq-IsValid ticks k v e = elim (Bool-cases ((k.pcb k.current).nested_count == 0)) [
  | inl user ↦ do_yield-IsValid ticks (advance 1 k) (advance-IsValid k 1 v) (rw user at e)
  | inr inside ↦ subst IsValid (some_inj (rw inside at e)) (advance-IsValid k 1 v)
]
