-- ===== src/Kernel/Sched/Frame.antt =====
-- The scheduler does not touch the objects of sync.c, their wait queues, or what a task has left to do.
use ucas_coursework.Prelude.{
  ℕ, zero, suc, ◌≢◌, ◌++◌, ◌==◌, if◌then◌else◌, ◌≡◌, refl, some, List, [], ◌∷◌, arith, is_nil,
  length, Bool-cases, inl, inr, some_inj, ◌∙◌, ap,
}
use Prim.Native.Nat.{◌+◌, ◌/◌, ◌%◌, ◌^◌}
use ucas_coursework.Prelude.{ltb}
use mathlib.Core.Path.{subst}
use ucas_coursework.Kernel.Sched.{
  Status, Cont, Kernel, wake_front, due, check_sleeping_loop, check_sleeping, pick_front, pick,
  advance, idle, scheduler, suspend, block, return, timed, fall_asleep, modify, set_saved,
  set_status, put_current_running, do_sleep, do_yield, do_exit, timer_irq,
}

pub record SameObjects (k k' : Kernel) : Type 0 where
  pub waiting : k'.waiting ≡ k.waiting
  pub locks : k'.lock ≡ k.lock
  pub semaphores : k'.semaphore ≡ k.semaphore
  pub barriers : k'.barrier ≡ k.barrier
  pub saved : (t : ℕ) → (k'.pcb t).saved ≡ (k.pcb t).saved

pub SameObjects-refl : (k : Kernel) → SameObjects k k
SameObjects-refl k = record {
  waiting = refl;
  locks = refl;
  semaphores = refl;
  barriers = refl;
  saved = λ t. refl;
}

pub SameObjects-trans :
    {k₁ k₂ k₃ : Kernel} → SameObjects k₁ k₂ → SameObjects k₂ k₃ → SameObjects k₁ k₃
SameObjects-trans a b = record {
  waiting = b.waiting ∙ a.waiting;
  locks = b.locks ∙ a.locks;
  semaphores = b.semaphores ∙ a.semaphores;
  barriers = b.barriers ∙ a.barriers;
  saved = λ t. b.saved t ∙ a.saved t;
}

wake_front-SameObjects : (ts : List ℕ) (k : Kernel) → SameObjects k (wake_front ts k)
wake_front-SameObjects [] k = SameObjects-refl k
wake_front-SameObjects (t ∷ ts) k = record {
  waiting = refl;
  locks = refl;
  semaphores = refl;
  barriers = refl;
  saved = λ s. ground arith;
}

check_sleeping_loop-SameObjects :
    (fuel : ℕ) (k : Kernel) → SameObjects k (check_sleeping_loop fuel k)
unfolding check_sleeping_loop
check_sleeping_loop-SameObjects zero k = SameObjects-refl k
check_sleeping_loop-SameObjects (suc f) k = elim (Bool-cases (due k.sleep_wait_queue k)) [
  | inl more ↦ rw more (
      SameObjects-trans (wake_front-SameObjects k.sleep_wait_queue k)
        (check_sleeping_loop-SameObjects f (wake_front k.sleep_wait_queue k)))
  | inr over ↦ rw over (SameObjects-refl k)
]

check_sleeping-SameObjects : (k : Kernel) → SameObjects k (check_sleeping k)
unfolding check_sleeping
check_sleeping-SameObjects k = check_sleeping_loop-SameObjects (length k.sleep_wait_queue) k

pick_front-SameObjects :
    (ts : List ℕ) (k k' : Kernel) → pick_front ts k ≡ some k' → SameObjects k k'
pick_front-SameObjects [] k k' e = cc
pick_front-SameObjects (t ∷ ts) k k' e = subst (SameObjects k) (some_inj e) (record {
  waiting = refl;
  locks = refl;
  semaphores = refl;
  barriers = refl;
  saved = λ s. ground arith;
})

idle-SameObjects : (ticks : List ℕ) (k k' : Kernel) → idle ticks k ≡ some k' → SameObjects k k'
unfolding idle pick
idle-SameObjects [] k k' e = pick_front-SameObjects k.ready_queue k k' e
idle-SameObjects (n ∷ ticks) k k' e = elim (Bool-cases (is_nil k.ready_queue)) [
  | inl empty ↦ SameObjects-trans (advanced n k) (
      SameObjects-trans (check_sleeping-SameObjects (advance n k))
        (idle-SameObjects ticks _ k' (rw empty at e)))
  | inr full ↦ pick_front-SameObjects k.ready_queue k k' (rw full at e)
]
  where
    advanced : (n : ℕ) (k : Kernel) → SameObjects k (advance n k)
    advanced n k = record {
      waiting = refl;
      locks = refl;
      semaphores = refl;
      barriers = refl;
      saved = λ t. refl;
    }

pub scheduler-SameObjects :
    (ticks : List ℕ) (k k' : Kernel) → scheduler ticks k ≡ some k' → SameObjects k k'
unfolding scheduler
scheduler-SameObjects ticks k k' e =
    SameObjects-trans (check_sleeping-SameObjects k)
      (idle-SameObjects ticks (check_sleeping k) k' e)

-- What `block` leaves, whoever runs next: the task that called it is at the back of the wait queue.
pub record Blocked (q : ℕ) (c : Cont) (k k' : Kernel) : Type 0 where
  pub queue : k'.waiting q ≡ k.waiting q ++ (k.current ∷ [])
  pub others : (r : ℕ) → r ≢ q → k'.waiting r ≡ k.waiting r
  pub locks : k'.lock ≡ k.lock
  pub semaphores : k'.semaphore ≡ k.semaphore
  pub barriers : k'.barrier ≡ k.barrier
  pub saved : (t : ℕ) → (k'.pcb t).saved ≡ (if t == k.current then c else (k.pcb t).saved)

pub block-Blocked :
    (ticks : List ℕ) (q : ℕ) (c : Cont) (k : Kernel) {k' : Kernel}
    → block ticks q c k ≡ some k'
    → Blocked q c k k'
unfolding block suspend
block-Blocked ticks q c k {k'} e =
    let o = scheduler-SameObjects ticks (suspend q c k) k' e in
    record {
      queue = ap (λ w. w q) o.waiting ∙ ground arith;
      others = λ r ne. ap (λ w. w r) o.waiting ∙ ground arith;
      locks = o.locks;
      semaphores = o.semaphores;
      barriers = o.barriers;
      saved = λ t. o.saved t ∙ ground arith;
    }

-- The objects of sync.c and their wait queues are the same.
pub record SameShared (k k' : Kernel) : Type 0 where
  pub waiting : k'.waiting ≡ k.waiting
  pub locks : k'.lock ≡ k.lock
  pub semaphores : k'.semaphore ≡ k.semaphore
  pub barriers : k'.barrier ≡ k.barrier

scheduled-SameShared :
    (ticks : List ℕ) (k k₁ k' : Kernel)
    → SameShared k k₁
    → scheduler ticks k₁ ≡ some k'
    → SameShared k k'
scheduled-SameShared ticks k k₁ k' s e =
    let o = scheduler-SameObjects ticks k₁ k' e in
    record {
      waiting = o.waiting ∙ s.waiting;
      locks = o.locks ∙ s.locks;
      semaphores = o.semaphores ∙ s.semaphores;
      barriers = o.barriers ∙ s.barriers;
    }

module _ (ticks : List ℕ) (k k' : Kernel) where
  pub do_sleep-SameShared : (ms : ℕ) → do_sleep ticks ms k ≡ some k' → SameShared k k'
  unfolding do_sleep
  do_sleep-SameShared ms e = elim (Bool-cases (ltb k.time_elapsed deadline)) [
    | inl sleeps ↦
        scheduled-SameShared ticks k (fall_asleep (timed deadline k)) k'
          (record { waiting = refl; locks = refl; semaphores = refl; barriers = refl })
          (rw sleeps at e)
    | inr stays ↦
        subst (SameShared k) (some_inj (rw stays at e))
          (record { waiting = refl; locks = refl; semaphores = refl; barriers = refl })
  ]
    where
      deadline : ℕ
      deadline = (k.time_elapsed + ms / 1000) % 2 ^ 64

  pub do_yield-SameShared : do_yield ticks k ≡ some k' → SameShared k k'
  unfolding do_yield put_current_running
  do_yield-SameShared e =
      scheduled-SameShared ticks k (put_current_running (modify k.current (set_saved return) k)) k'
        (record { waiting = refl; locks = refl; semaphores = refl; barriers = refl }) e

  pub do_exit-SameShared : do_exit ticks k ≡ some k' → SameShared k k'
  unfolding do_exit
  do_exit-SameShared e =
      scheduled-SameShared ticks k (modify k.current (set_status Status.exited) k) k'
        (record { waiting = refl; locks = refl; semaphores = refl; barriers = refl }) e

pub timer_irq-SameShared :
    (ticks : List ℕ) (k k' : Kernel) → timer_irq ticks k ≡ some k' → SameShared k k'
unfolding timer_irq
timer_irq-SameShared ticks k k' e = elim (Bool-cases ((k.pcb k.current).nested_count == 0)) [
  | inl user ↦
      let s = do_yield-SameShared ticks (advance 1 k) k' (rw user at e) in
      record {
        waiting = s.waiting;
        locks = s.locks;
        semaphores = s.semaphores;
        barriers = s.barriers;
      }
  | inr inside ↦
      subst (SameShared k) (some_inj (rw inside at e))
        (record { waiting = refl; locks = refl; semaphores = refl; barriers = refl })
]
