-- ===== src/Kernel/Sync/Inv.antt =====
-- Every operation of sync.c keeps the kernel valid, and so does every sequence of them.
use ucas_coursework.Prelude.{
  ℕ, ◌≡◌, refl, Bool, true, false, Option, none, some, List, ◌==◌, leb, is_nil, Bool-cases, inl,
  inr, ◌&&◌, not, ◌+◌,
}
use ucas_coursework.Kernel.Sched.{
  Cont, return, acquired, reacquire, Lock, Barrier, Kernel, set_blocking_lock, set_saved,
}
use ucas_coursework.Kernel.Sched.Inv.{IsValid, modify-IsValid}
use ucas_coursework.Kernel.Sched.Ops.{
  block-IsValid, do_sleep-IsValid, do_yield-IsValid, do_exit-IsValid, timer_irq-IsValid,
}
use ucas_coursework.Kernel.Sync.{
  Ret, Outcome, switches, unblock_one, settle, lock_acquire, lock_release, condition_wait,
  condition_signal, condition_broadcast, semaphore_up, semaphore_down, barrier_wait, resume_with,
  resume, Call, acquire, release, wait, signal, broadcast, up, down, arrive, sleep, yield, exit,
  timer, go_on, exec, Step, calls, goes_on, Reach, here, next,
}
use ucas_coursework.Kernel.Sync.Wake.{unblock_one-IsValid, unblock_all-IsValid}

-- The invariant speaks of the tasks and their queues alone.
abbrev with_objects : (ℕ → Lock) → (ℕ → ℕ) → (ℕ → Barrier) → Kernel → Kernel
with_objects l s b k = record k { lock = l; semaphore = s; barrier = b }

with_objects-IsValid :
    (l : ℕ → Lock) (s : ℕ → ℕ) (b : ℕ → Barrier) (k : Kernel)
    → IsValid k
    → IsValid (with_objects l s b k)
with_objects-IsValid l s b k v = record {
  placed = record {
    ready = v.placed.ready;
    asleep = v.placed.asleep;
    waits = v.placed.waits;
    one_queue = v.placed.one_queue;
    ready_once = v.placed.ready_once;
    asleep_once = v.placed.asleep_once;
    waits_once = v.placed.waits_once;
  };
  runs = v.runs;
  taken = v.taken;
}

-- What an outcome leaves, if it leaves a kernel.
abbrev pub Leaves : (Kernel → Type 0) → Outcome → Type 0
Leaves P none = Unit {0}
Leaves P (some (r, k)) = P k

pub switches-Leaves :
    (P : Kernel → Type 0) (o : Option Kernel)
    → ((k : Kernel) → o ≡ some k → P k)
    → Leaves P (switches o)
switches-Leaves P none h = tt
switches-Leaves P (some k) h = h k refl

pub Leaves-apply :
    (P : Kernel → Type 0) (o : Outcome) {r : Ret} {k : Kernel} → Leaves P o → o ≡ some (r, k) → P k
Leaves-apply P o h e = rw e at h

lock_release-IsValid : (l : ℕ) (k : Kernel) → IsValid k → IsValid (lock_release l k)
unfolding lock_release
lock_release-IsValid l k v = elim (Bool-cases (unblock_one l k).0) [
  | inl woke ↦ rw woke (with_objects-IsValid _ _ _ _ (unblock_one-IsValid l k v))
  | inr idle ↦ rw idle (with_objects-IsValid _ _ _ _ (unblock_one-IsValid l k v))
]

module _ (fuel : ℕ) (ticks : List ℕ) where
  settle-Leaves :
      (l : ℕ) (k : Kernel) (a : Option Bool) → IsValid k → Leaves IsValid (settle ticks l k a)
  settle-Leaves l k none v = tt
  settle-Leaves l k (some true) v =
      modify-IsValid k.current (set_blocking_lock none) (λ x. refl) k v
  settle-Leaves l k (some false) v =
      switches-Leaves IsValid _ λ k' e. block-IsValid ticks k v l acquired e

  lock_acquire-Leaves :
      (l : ℕ) (k : Kernel) → IsValid k → Leaves IsValid (lock_acquire fuel ticks l k)
  unfolding lock_acquire
  lock_acquire-Leaves l k v = elim (Bool-cases (k.lock l).locked) [
    | inl held ↦ rw held (
        settle-Leaves l _ _ (modify-IsValid k.current (set_blocking_lock (some l)) (λ x. refl) k v))
    | inr free ↦ rw free (with_objects-IsValid _ _ _ k v)
  ]

  resume_with-Leaves :
      (c : Cont) (k : Kernel) → IsValid k → Leaves IsValid (resume_with c fuel ticks k)
  resume_with-Leaves return k v = v
  resume_with-Leaves acquired k v =
      modify-IsValid k.current (set_blocking_lock none) (λ x. refl) k v
  resume_with-Leaves (reacquire m) k v = lock_acquire-Leaves m k v

  semaphore_up-IsValid : (s : ℕ) (k : Kernel) → IsValid k → IsValid (semaphore_up s k)
  unfolding semaphore_up
  semaphore_up-IsValid s k v =
      elim (Bool-cases ((k.semaphore s == 0) && not (is_nil (k.waiting s)))) [
        | inl wakes ↦ rw wakes (unblock_one-IsValid s k v)
        | inr counts ↦ rw counts (with_objects-IsValid _ _ _ k v)
      ]

  semaphore_down-Leaves :
      (s : ℕ) (k : Kernel) → IsValid k → Leaves IsValid (semaphore_down ticks s k)
  unfolding semaphore_down
  semaphore_down-Leaves s k v = elim (Bool-cases (k.semaphore s == 0)) [
    | inl zero_left ↦
        rw zero_left (switches-Leaves IsValid _ λ k' e. block-IsValid ticks k v s return e)
    | inr some_left ↦ rw some_left (with_objects-IsValid _ _ _ k v)
  ]

  barrier_wait-Leaves : (b : ℕ) (k : Kernel) → IsValid k → Leaves IsValid (barrier_wait ticks b k)
  unfolding barrier_wait
  barrier_wait-Leaves b k v = elim (Bool-cases (leb (k.barrier b).n ((k.barrier b).m + 1))) [
    | inl last ↦ rw last (unblock_all-IsValid b _ (with_objects-IsValid _ _ _ k v))
    | inr early ↦ rw early (
        switches-Leaves IsValid _
          λ k' e. block-IsValid ticks _ (with_objects-IsValid _ _ _ k v) b return e)
  ]

  exec-Leaves : (c : Call) (k : Kernel) → IsValid k → Leaves IsValid (exec fuel ticks c k)
  unfolding exec condition_wait condition_signal condition_broadcast resume
  exec-Leaves (acquire l) k v = lock_acquire-Leaves l k v
  exec-Leaves (release l) k v = lock_release-IsValid l k v
  exec-Leaves (wait m c) k v =
      switches-Leaves IsValid _
        λ k' e. block-IsValid ticks _ (lock_release-IsValid m k v) c (reacquire m) e
  exec-Leaves (signal c) k v = unblock_one-IsValid c k v
  exec-Leaves (broadcast c) k v = unblock_all-IsValid c k v
  exec-Leaves (up s) k v = semaphore_up-IsValid s k v
  exec-Leaves (down s) k v = semaphore_down-Leaves s k v
  exec-Leaves (arrive b) k v = barrier_wait-Leaves b k v
  exec-Leaves (sleep ms) k v = switches-Leaves IsValid _ λ k' e. do_sleep-IsValid ticks k v ms e
  exec-Leaves yield k v = switches-Leaves IsValid _ λ k' e. do_yield-IsValid ticks k v e
  exec-Leaves exit k v = switches-Leaves IsValid _ λ k' e. do_exit-IsValid ticks k v e
  exec-Leaves timer k v = switches-Leaves IsValid _ λ k' e. timer_irq-IsValid ticks k v e
  exec-Leaves go_on k v =
      resume_with-Leaves (k.pcb k.current).saved _
        (modify-IsValid k.current (set_saved return) (λ x. refl) k v)

Step-IsValid : {k k' : Kernel} → Step k k' → IsValid k → IsValid k'
Step-IsValid {k} (calls fuel ticks c r idle e) v =
    Leaves-apply IsValid _ (exec-Leaves fuel ticks c k v) e
Step-IsValid {k} (goes_on fuel ticks r e) v =
    Leaves-apply IsValid _ (exec-Leaves fuel ticks go_on k v) e

-- Along every sequence of calls and timer interrupts each task stays in at most one queue, once, as its
-- status says, and the running task is in none and may run.
pub Reach-IsValid : {k k' : Kernel} → IsValid k → Reach k k' → IsValid k'
Reach-IsValid v here = v
Reach-IsValid v (next r s) = Step-IsValid s (Reach-IsValid v r)
