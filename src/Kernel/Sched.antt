-- ===== src/Kernel/Sched.antt =====
-- scheduler.c of Operating System/p4-Synchronization-Primitives-IPC, and the state of the kernel that it
-- and sync.c share. A queue is the list of tasks that Kernel.Queue shows its links to hold; a task is
-- the address of its PCB. The source runs each operation with interrupts disabled, from one call of
-- `scheduler_entry` to the next, so an operation is a function on the state, and what a task has still
-- to do after `scheduler_entry` gives it the processor back is kept in its PCB.
pub mod Inv
pub mod Ops
pub mod Wake
pub mod Live
pub mod Frame
mod Tests
use ucas_coursework.Prelude.{
  ℕ, zero, suc, ◌+◌, ◌/◌, ◌%◌, ◌^◌, Bool, true, false, Option, none, some, List, [], ◌∷◌, ◌++◌,
  ◌==◌, ltb, leb, if◌then◌else◌, update, is_nil, length,
}

-- `status_t`
pub data Status : Type 0 where
  first_time ready blocked exited sleeping : Status

-- What a task does next when it is switched to: nothing that its caller would not do, the end of
-- `lock_acquire_helper` behind `block`, or the end of `condition_wait` on the lock.
pub data Cont : Type 0 where
  return : Cont
  acquired : Cont
  reacquire : ℕ → Cont

-- `pcb_t`; NULL in `blocking_lock` is `none`.
pub record Pcb : Type 0 where
  pub status : Status
  pub pid : ℕ
  pub priority : ℕ
  pub deadline : ℕ
  pub entry_count : ℕ
  pub nested_count : ℕ
  pub blocking_lock : Option ℕ
  pub saved : Cont

-- `lock_t`, `UNLOCKED` and `LOCKED` as a Boolean; its wait queue stands at its address.
pub record Lock : Type 0 where
  pub locked : Bool
  pub held_task : Option ℕ

-- `barrier_t`
pub record Barrier : Type 0 where
  pub n : ℕ
  pub m : ℕ

-- The variables of scheduler.c, and the objects of sync.c at their addresses: `waiting` holds the wait
-- queue of the object at each address.
pub record Kernel : Type 0 where
  pub pcb : ℕ → Pcb
  pub current : ℕ
  pub ready_queue : List ℕ
  pub sleep_wait_queue : List ℕ
  pub time_elapsed : ℕ
  pub waiting : ℕ → List ℕ
  pub lock : ℕ → Lock
  pub semaphore : ℕ → ℕ
  pub barrier : ℕ → Barrier

-- `task->f = v` for the PCB at `t`
abbrev pub modify : ℕ → (Pcb → Pcb) → Kernel → Kernel
modify t f k = record k { pcb = update k.pcb t (f (k.pcb t)) }

abbrev pub set_status : Status → Pcb → Pcb
set_status s p = record p { status = s }

abbrev pub set_saved : Cont → Pcb → Pcb
set_saved c p = record p { saved = c }

abbrev pub set_deadline : ℕ → Pcb → Pcb
set_deadline d p = record p { deadline = d }

abbrev pub set_priority : ℕ → Pcb → Pcb
set_priority n p = record p { priority = n }

abbrev pub set_blocking_lock : Option ℕ → Pcb → Pcb
set_blocking_lock l p = record p { blocking_lock = l }

-- `++current_running->entry_count`, of 32 bits
abbrev pub count_entry : Pcb → Pcb
count_entry p = record p { entry_count = (p.entry_count + 1) % 2 ^ 32 }

-- The running task is marked, with what it has to do when it is switched to again.
abbrev pub leave_with : Status → Cont → Pcb → Pcb
leave_with s c p = record p { status = s; saved = c }

-- One round of the loop of `check_sleeping`: the first of the sleepers is made ready.
abbrev pub wake_front : List ℕ → Kernel → Kernel
wake_front [] k = k
wake_front (t ∷ ts) k = record (modify t (set_status Status.ready) k) {
  sleep_wait_queue = ts;
  ready_queue = k.ready_queue ++ (t ∷ []);
}

-- Whether the loop of `check_sleeping` goes on: a first sleeper whose deadline has come.
abbrev pub due : List ℕ → Kernel → Bool
due [] k = false
due (t ∷ ts) k = leb (k.pcb t).deadline k.time_elapsed

unfoldable pub check_sleeping_loop : ℕ → Kernel → Kernel
check_sleeping_loop zero k = k
check_sleeping_loop (suc fuel) k =
    let rest = check_sleeping_loop fuel (wake_front k.sleep_wait_queue k) in
    if due k.sleep_wait_queue k then rest else k

-- Each round takes a task off the queue, so the queue's length is fuel enough.
unfoldable pub check_sleeping : Kernel → Kernel
unfolding check_sleeping_loop
check_sleeping k = check_sleeping_loop (length k.sleep_wait_queue) k

unfoldable pub put_current_running : Kernel → Kernel
put_current_running k = record (modify k.current (set_status Status.ready) k) {
  ready_queue = k.ready_queue ++ (k.current ∷ []);
}

-- `current_running = dequeue(&ready_queue)` and its entry count; `none` where no task is ready.
abbrev pub pick_front : List ℕ → Kernel → Option Kernel
pick_front [] k = none
pick_front (t ∷ ts) k = some (record (modify t count_entry k) { current = t; ready_queue = ts })

unfoldable pub pick : Kernel → Option Kernel
pick k = pick_front k.ready_queue k

-- `n` timer interrupts while `scheduler` lets them in (`timer_irq` only counts them there)
abbrev pub advance : ℕ → Kernel → Kernel
advance n k = record k { time_elapsed = (k.time_elapsed + n) % 2 ^ 64 }

-- The waiting loop of `scheduler`. The list holds the number of timer interrupts that each round lets
-- in; `none` means that no task has become ready by its end.
unfoldable pub idle : List ℕ → Kernel → Option Kernel
unfolding check_sleeping pick
idle [] k = pick k
idle (n ∷ ticks) k =
    let later = idle ticks (check_sleeping (advance n k)) in
    if is_nil k.ready_queue then later else pick k

unfoldable pub scheduler : List ℕ → Kernel → Option Kernel
unfolding check_sleeping idle
scheduler ticks k = idle ticks (check_sleeping k)

unfoldable pub lte_deadline : (ℕ → Pcb) → ℕ → ℕ → Bool
lte_deadline pcb a b = leb (pcb a).deadline (pcb b).deadline

abbrev pub timed : ℕ → Kernel → Kernel
timed deadline k = modify k.current (set_deadline deadline) k

-- The running task goes to the back of the sleep queue.
abbrev pub fall_asleep : Kernel → Kernel
fall_asleep k = record (modify k.current (leave_with Status.sleeping return) k) {
  sleep_wait_queue = k.sleep_wait_queue ++ (k.current ∷ []);
}

-- The argument is a number of milliseconds that is not negative.
unfoldable pub do_sleep : List ℕ → ℕ → Kernel → Option Kernel
unfolding scheduler
do_sleep ticks milliseconds k =
    let deadline : ℕ = (k.time_elapsed + milliseconds / 1000) % 2 ^ 64 in
    if ltb k.time_elapsed deadline
    then scheduler ticks (fall_asleep (timed deadline k))
    else some (timed deadline k)

unfoldable pub do_yield : List ℕ → Kernel → Option Kernel
unfolding put_current_running scheduler
do_yield ticks k = scheduler ticks (put_current_running (modify k.current (set_saved return) k))

unfoldable pub do_exit : List ℕ → Kernel → Option Kernel
unfolding scheduler
do_exit ticks k = scheduler ticks (modify k.current (set_status Status.exited) k)

-- What `block` does before it calls `scheduler_entry`: the current task, which has `c` to do when it is
-- switched to again, goes to the back of the wait queue at `q`.
unfoldable pub suspend : ℕ → Cont → Kernel → Kernel
suspend q c k = record (modify k.current (leave_with Status.blocked c) k) {
  waiting = update k.waiting q (k.waiting q ++ (k.current ∷ []));
}

unfoldable pub block : List ℕ → ℕ → Cont → Kernel → Option Kernel
unfolding suspend scheduler
block ticks q c k = scheduler ticks (suspend q c k)

unfoldable pub unblock : ℕ → Kernel → Kernel
unblock task k = record (modify task (set_status Status.ready) k) {
  ready_queue = k.ready_queue ++ (task ∷ []);
}

-- `timer_irq` of interrupt.c, which preempts the task unless it runs inside the kernel.
unfoldable pub timer_irq : List ℕ → Kernel → Option Kernel
unfolding do_yield
timer_irq ticks k =
    let k' = advance 1 k in
    if (k.pcb k.current).nested_count == 0 then do_yield ticks k' else some k'

unfoldable pub do_getpid : Kernel → ℕ
do_getpid k = (k.pcb k.current).pid

unfoldable pub do_gettimeofday : Kernel → ℕ
do_gettimeofday k = k.time_elapsed

unfoldable pub get_timer : Kernel → ℕ
unfolding do_gettimeofday
get_timer k = do_gettimeofday k

unfoldable pub do_getpriority : Kernel → ℕ
do_getpriority k = (k.pcb k.current).priority

-- A priority below 1 is ignored. (The argument is not negative.)
unfoldable pub do_setpriority : ℕ → Kernel → Kernel
do_setpriority priority k = if leb 1 priority then modify k.current (set_priority priority) k else k
