-- ===== src/Kernel/Sync.antt =====
-- sync.c of Operating System/p4-Synchronization-Primitives-IPC: locks, condition variables, semaphores
-- and barriers, on the state of Kernel.Sched. An operation that blocks returns the kernel after the
-- switch to another task; `resume` is what a blocked task does when it is switched to again.
pub mod Wake
pub mod Inv
pub mod Barriers
pub mod Semaphores
pub mod Locks
mod Tests
use ucas_coursework.Prelude.{
  ℕ, zero, suc, ◌+◌, ◌-◌, ◌≡◌, Bool, true, false, Option, none, some, List, [], ◌∷◌, ◌==◌, leb,
  if◌then◌else◌, update, is_nil, length, ◌&&◌, not,
}
use ucas_coursework.Kernel.Sched.{
  Status, Cont, return, acquired, reacquire, Pcb, Lock, Barrier, Kernel, modify, set_status,
  set_blocking_lock, set_saved, suspend, scheduler, block, unblock, do_sleep, do_yield, do_exit,
  timer_irq,
}

-- What a call ends in: a value for the caller, or the switch to another task.
pub data Ret : Type 0 where
  value : ℕ → Ret
  switched : Ret

-- `none` means that the machine idled to the end of the timer interrupts that were given.
abbrev pub Outcome : Type 0
Outcome = Option (Ret × Kernel)

abbrev pub returns : ℕ → Kernel → Outcome
returns n k = some (value n, k)

abbrev pub switches : Option Kernel → Outcome
switches none = none
switches (some k) = some (switched, k)

-- `queue_init(&wait_queue)` of the object at `q`
abbrev pub clear_queue : ℕ → Kernel → Kernel
clear_queue q k = record k { waiting = update k.waiting q [] }

-- The first waiter `t` of the queue at `q` is taken off it and made ready.
abbrev pub release_front : ℕ → List ℕ → Kernel → Bool × Kernel
release_front q [] k = (false, k)
release_front q (t ∷ ts) k = (true, unblock t (record k { waiting = update k.waiting q ts }))

-- Whether there was a task to unblock is the first part of the result.
unfoldable pub unblock_one : ℕ → Kernel → Bool × Kernel
unblock_one q k = release_front q (k.waiting q) k

-- `while (!is_empty(&wait_queue)) unblock_one(&wait_queue)`, on fuel
unfoldable pub unblock_loop : ℕ → ℕ → Kernel → Kernel
unfolding unblock_one
unblock_loop zero q k = k
unblock_loop (suc fuel) q k =
    let rest = unblock_loop fuel q (unblock_one q k).1 in if is_nil (k.waiting q) then k else rest

-- Each round takes a waiter off the queue, so its length is fuel enough.
unfoldable pub unblock_all : ℕ → Kernel → Kernel
unfolding unblock_loop
unblock_all q k = unblock_loop (length (k.waiting q)) q k

abbrev pub set_lock : ℕ → (Lock → Lock) → Kernel → Kernel
set_lock l f k = record k { lock = update k.lock l (f (k.lock l)) }

unfoldable pub lock_init : ℕ → Kernel → Kernel
lock_init l k = clear_queue l (set_lock l (λ x. record x { locked = false; held_task = none }) k)

-- The walk of `lock_acquire_helper` from task `t`, by the lock that it waits for to the task that holds
-- that lock: whether it comes back to the current task. `none` means that the fuel ran out.
unfoldable pub deadlock_loop : ℕ → Option ℕ → Kernel → Option Bool
deadlock_loop zero t k = none
deadlock_loop (suc fuel) none k = some false
deadlock_loop (suc fuel) (some t) k = elim (k.pcb t).blocking_lock [
  | none ↦ some false
  | some l ↦ elim (k.lock l).held_task [
    | none ↦ deadlock_loop fuel none k
    | some h ↦
        let rest = deadlock_loop fuel (some h) k in if h == k.current then some true else rest
  ]
]

-- What `lock_acquire_helper` does with the answer of that walk.
abbrev pub settle : List ℕ → ℕ → Kernel → Option Bool → Outcome
settle ticks l k none = none
settle ticks l k (some true) = returns 1 (modify k.current (set_blocking_lock none) k)
settle ticks l k (some false) = switches (block ticks l acquired k)

unfoldable pub lock_acquire : ℕ → List ℕ → ℕ → Kernel → Outcome
unfolding deadlock_loop block
lock_acquire fuel ticks l k =
    let waits = modify k.current (set_blocking_lock (some l)) k in
    if (k.lock l).locked
    then settle ticks l waits (deadlock_loop fuel (some k.current) waits)
    else returns 0 (set_lock l (λ x. record x { locked = true }) k)

unfoldable pub lock_release : ℕ → Kernel → Kernel
unfolding unblock_one
lock_release l k =
    let (woke, k') = unblock_one l k in
    let freed = if woke then k' else set_lock l (λ x. record x { locked = false }) k' in
    set_lock l (λ x. record x { held_task = none }) freed

unfoldable pub condition_init : ℕ → Kernel → Kernel
condition_init c k = clear_queue c k

unfoldable pub condition_wait : List ℕ → ℕ → ℕ → Kernel → Outcome
unfolding lock_release block
condition_wait ticks m c k = switches (block ticks c (reacquire m) (lock_release m k))

unfoldable pub condition_signal : ℕ → Kernel → Kernel
unfolding unblock_one
condition_signal c k = (unblock_one c k).1

unfoldable pub condition_broadcast : ℕ → Kernel → Kernel
unfolding unblock_all
condition_broadcast c k = unblock_all c k

-- The value is not negative, as the source demands of its callers. It is an `int` there, which calls of
-- `semaphore_up` are taken not to count up to 2 ^ 31.
unfoldable pub semaphore_init : ℕ → ℕ → Kernel → Kernel
semaphore_init s v k = clear_queue s (record k { semaphore = update k.semaphore s v })

unfoldable pub semaphore_up : ℕ → Kernel → Kernel
unfolding unblock_one
semaphore_up s k =
    if (k.semaphore s == 0) && not (is_nil (k.waiting s))
    then (unblock_one s k).1
    else record k { semaphore = update k.semaphore s (k.semaphore s + 1) }

unfoldable pub semaphore_down : List ℕ → ℕ → Kernel → Outcome
unfolding block
semaphore_down ticks s k =
    if k.semaphore s == 0
    then switches (block ticks s return k)
    else returns 0 (record k { semaphore = update k.semaphore s (k.semaphore s - 1) })

unfoldable pub barrier_init : ℕ → ℕ → Kernel → Kernel
barrier_init b n k =
    clear_queue b (record k { barrier = update k.barrier b (record { n = n; m = 0 }) })

abbrev pub set_m : ℕ → ℕ → Kernel → Kernel
set_m b m k = record k { barrier = update k.barrier b (record (k.barrier b) { m = m }) }

-- `m >= n - 1` is a test on signed numbers.
unfoldable pub barrier_wait : List ℕ → ℕ → Kernel → Outcome
unfolding unblock_all block
barrier_wait ticks b k =
    let m : ℕ = (k.barrier b).m in
    if leb (k.barrier b).n (m + 1)
    then returns 0 (unblock_all b (set_m b 0 k))
    else switches (block ticks b return (set_m b (m + 1) k))

-- What the current task, just switched to, has to do before it goes on: nothing, the end of
-- `lock_acquire_helper`, or the end of `condition_wait`.
abbrev pub resume_with : Cont → ℕ → List ℕ → Kernel → Outcome
resume_with return fuel ticks k = returns 0 k
resume_with acquired fuel ticks k = returns 0 (modify k.current (set_blocking_lock none) k)
resume_with (reacquire m) fuel ticks k = lock_acquire fuel ticks m k

unfoldable pub resume : ℕ → List ℕ → Kernel → Outcome
unfolding lock_acquire
resume fuel ticks k =
    resume_with (k.pcb k.current).saved fuel ticks (modify k.current (set_saved return) k)

-- What the running task can do next, and the timer interrupt.
pub data Call : Type 0 where
  acquire release : ℕ → Call
  wait : ℕ → ℕ → Call
  signal broadcast : ℕ → Call
  up down : ℕ → Call
  arrive : ℕ → Call
  sleep : ℕ → Call
  yield exit timer go_on : Call

unfoldable pub exec : ℕ → List ℕ → Call → Kernel → Outcome
unfolding lock_acquire lock_release condition_wait condition_signal condition_broadcast semaphore_up
    semaphore_down barrier_wait do_sleep do_yield do_exit timer_irq resume
exec fuel ticks (acquire l) k = lock_acquire fuel ticks l k
exec fuel ticks (release l) k = returns 0 (lock_release l k)
exec fuel ticks (wait m c) k = condition_wait ticks m c k
exec fuel ticks (signal c) k = returns 0 (condition_signal c k)
exec fuel ticks (broadcast c) k = returns 0 (condition_broadcast c k)
exec fuel ticks (up s) k = returns 0 (semaphore_up s k)
exec fuel ticks (down s) k = semaphore_down ticks s k
exec fuel ticks (arrive b) k = barrier_wait ticks b k
exec fuel ticks (sleep ms) k = switches (do_sleep ticks ms k)
exec fuel ticks yield k = switches (do_yield ticks k)
exec fuel ticks exit k = switches (do_exit ticks k)
exec fuel ticks timer k = switches (timer_irq ticks k)
exec fuel ticks go_on k = resume fuel ticks k

-- One call of the running task, after what it had left to do; or that.
pub data Step (k : Kernel) : Kernel → Type 0 where
  calls :
      {k' : Kernel} (fuel : ℕ) (ticks : List ℕ) (c : Call) (r : Ret)
      → (k.pcb k.current).saved ≡ return
      → exec fuel ticks c k ≡ some (r, k')
      → Step k k'
  goes_on :
      {k' : Kernel} (fuel : ℕ) (ticks : List ℕ) (r : Ret)
      → exec fuel ticks go_on k ≡ some (r, k')
      → Step k k'

pub data Reach (k : Kernel) : Kernel → Type 0 where
  here : Reach k k
  next : {k₁ k₂ : Kernel} → Reach k k₁ → Step k₁ k₂ → Reach k k₂
