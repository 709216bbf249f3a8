-- ===== src/Kernel/Process.antt =====
-- Process control of kernel.c of Operating System/p4-Synchronization-Primitives-IPC: do_spawn, do_kill
-- and do_wait. The address of `pcb[i]` is `i`, and `wait_queue i` that of its queue of tasks that wait
-- for its end. The number of PCBs is a parameter, as is what the RAM disk says of a program: whether it
-- is a kernel thread. Stacks, entry points and mailbox uses of a PCB are not part of the state.
pub mod Inv
pub mod Found
pub mod Steps
pub mod Effects
mod Tests
use ucas_coursework.Prelude.{
  ℕ, zero, suc, ◌+◌, Bool, true, false, Option, none, some, List, [], ◌∷◌, ◌++◌, ◌==◌, ◌&&◌, not,
  if◌then◌else◌, update,
}
use ucas_coursework.Kernel.Sched.{Status, return, Pcb, Kernel, modify, set_status, scheduler, block}
use ucas_coursework.Kernel.Sync.{unblock_all, clear_queue}

abbrev pub is_exited : Status → Bool
is_exited Status.first_time = false
is_exited Status.ready = false
is_exited Status.blocked = false
is_exited Status.exited = true
is_exited Status.sleeping = false

-- The first index from `i` on, of `n`, at which the test holds; -1 is `none`.
unfoldable pub find : (ℕ → Bool) → ℕ → ℕ → Option ℕ
find test i zero = none
find test i (suc n) = let rest = find test (i + 1) n in if test i then some i else rest

unfoldable pub dead_task_find : ℕ → Kernel → Option ℕ
unfolding find
dead_task_find num_pcbs k = find (λ i. is_exited (k.pcb i).status) 0 num_pcbs

unfoldable pub pcb_with_pid_find : ℕ → ℕ → Kernel → Option ℕ
unfolding find
pcb_with_pid_find num_pcbs pid k =
    find (λ i. (k.pcb i).pid == pid && not (is_exited (k.pcb i).status)) 0 num_pcbs

-- `initialize_pcb`, but for its call of `queue_init`
abbrev pub fresh_pcb : ℕ → Bool → Pcb → Pcb
fresh_pcb pid kernel_thread p = record p {
  pid = pid;
  priority = 1;
  status = Status.first_time;
  nested_count = if kernel_thread then 1 else 0;
  saved = return;
}

-- The task becomes the last of the ready ones.
unfoldable pub spawn_at : ℕ → ℕ → ℕ → Bool → Kernel → Kernel
spawn_at num queue pid kernel_thread k =
    let cleared : Kernel = clear_queue queue k in
    record (modify num (fresh_pcb pid kernel_thread) cleared) {
      ready_queue = k.ready_queue ++ (num ∷ []);
    }

abbrev pub spawn_in : Option ℕ → (ℕ → ℕ) → ℕ → Bool → Kernel → Option (ℕ × Kernel)
spawn_in none wait_queue pid kernel_thread k = none
spawn_in (some num) wait_queue pid kernel_thread k =
    some (pid + 1, spawn_at num (wait_queue num) pid kernel_thread k)

-- The first part of the result is the new `spawn_times`; `none` is a use of `pcb[-1]`.
unfoldable pub do_spawn : ℕ → (ℕ → ℕ) → ℕ → Bool → Kernel → Option (ℕ × Kernel)
unfolding dead_task_find spawn_at
do_spawn num_pcbs wait_queue spawn_times kernel_thread k =
    spawn_in (dead_task_find num_pcbs k) wait_queue spawn_times kernel_thread k

-- The list with `t` taken out.
unfoldable pub without : ℕ → List ℕ → List ℕ
without t [] = []
without t (x ∷ xs) = if x == t then without t xs else x ∷ without t xs

-- The node of task `t` is unlinked, whichever queue it is in. (A task that is in no queue is outside of
-- the model here: the source writes through what its links were before.)
unfoldable pub unlink_task : ℕ → Kernel → Kernel
unfolding without
unlink_task t k = record k {
  ready_queue = without t k.ready_queue;
  sleep_wait_queue = without t k.sleep_wait_queue;
  waiting = λ q. without t (k.waiting q);
}

unfoldable pub kill_other : ℕ → ℕ → Kernel → Kernel
unfolding unlink_task unblock_all
kill_other num queue k =
    unblock_all queue (modify num (set_status Status.exited) (unlink_task num k))

unfoldable pub kill_self : List ℕ → ℕ → Kernel → Option Kernel
unfolding unblock_all scheduler
kill_self ticks queue k =
    scheduler ticks (unblock_all queue (modify k.current (set_status Status.exited) k))

abbrev pub kill_at : List ℕ → (ℕ → ℕ) → ℕ → Kernel → Option ℕ → Option Kernel
kill_at ticks wait_queue pid k none = none
kill_at ticks wait_queue pid k (some num) =
    if pid == (k.pcb k.current).pid
    then kill_self ticks (wait_queue num) k
    else some (kill_other num (wait_queue num) k)

-- `none` also where there is no such task: the source uses `pcb[-1]` then.
unfoldable pub do_kill : ℕ → List ℕ → (ℕ → ℕ) → ℕ → Kernel → Option Kernel
unfolding pcb_with_pid_find kill_self kill_other
do_kill num_pcbs ticks wait_queue pid k =
    kill_at ticks wait_queue pid k (pcb_with_pid_find num_pcbs pid k)

abbrev pub wait_at : List ℕ → (ℕ → ℕ) → Kernel → Option ℕ → Option Kernel
wait_at ticks wait_queue k none = none
wait_at ticks wait_queue k (some num) = block ticks (wait_queue num) return k

unfoldable pub do_wait : ℕ → List ℕ → (ℕ → ℕ) → ℕ → Kernel → Option Kernel
unfolding pcb_with_pid_find block
do_wait num_pcbs ticks wait_queue pid k =
    wait_at ticks wait_queue k (pcb_with_pid_find num_pcbs pid k)
