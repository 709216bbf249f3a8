-- ===== src/Kernel/Sync/Tests.antt =====
-- Runs of the operations of sync.c, and their theorems, on a machine with a lock, a semaphore and a
-- barrier.
use ucas_coursework.Prelude.{
  ◌≡◌, refl, true, false, none, some, [], ◌∷◌, arith, ◌==◌, if◌then◌else◌, ◌+◌, length, ◌↔◌,
}
use ucas_coursework.Kernel.Sched.{Status, return, acquired, Pcb, Kernel, block}
use ucas_coursework.Kernel.Sched.Inv.{IsValid}
use ucas_coursework.Kernel.Sync.{
  value, returns, switches, set_m, set_lock, acquire, exec, calls, Reach, here, next, lock_acquire,
  barrier_wait, unblock_all,
}
use ucas_coursework.Kernel.Sync.Inv.{Reach-IsValid}
use ucas_coursework.Kernel.Sync.Locks.{wanting, lock_acquire-Reach}
use ucas_coursework.Kernel.Sync.Barriers.{BarrierOutcome, barrier_wait_lem}

abbrev task : Status → Pcb
task s = record {
  status = s;
  pid = 7;
  priority = 1;
  deadline = 0;
  entry_count = 0;
  nested_count = 0;
  blocking_lock = none;
  saved = return;
}

-- Task 1 runs, 2 is ready; 3 waits at the semaphore 200, which is 0, and 4 and 5 at the barrier 300,
-- which lets three tasks go. The lock at 100 is free.
abbrev machine : Kernel
machine = record {
  pcb = λ t.
      if t == 3
      then task Status.blocked
      else if t == 4
      then task Status.blocked
      else if t == 5
      then task Status.blocked
      else task Status.ready;
  current = 1;
  ready_queue = 2 ∷ [];
  sleep_wait_queue = [];
  time_elapsed = 0;
  waiting = λ q. if q == 200 then 3 ∷ [] else if q == 300 then 4 ∷ 5 ∷ [] else [];
  lock = λ l. record { locked = false; held_task = none };
  semaphore = λ s. 0;
  barrier = λ b. record { n = 3; m = 2 };
}

machine-IsValid : IsValid machine
machine-IsValid = record {
  placed = record {
    ready = λ t i. ground arith;
    asleep = λ t i. ground arith;
    waits = λ q t i. ground arith;
    one_queue = λ q r t i j. ground arith;
    ready_once = (refl, tt);
    asleep_once = tt;
    waits_once = λ q. ground arith;
  };
  runs = refl;
  taken = refl;
}

-- Task 1 has taken the lock at 100.
abbrev locked_machine : Kernel
locked_machine = set_lock 100 (λ x. record x { locked = true }) machine

acquire_run : lock_acquire 2 [] 100 machine ≡ returns 0 locked_machine
unfolding lock_acquire
acquire_run = refl

one_Step : Reach machine locked_machine
unfolding exec lock_acquire
one_Step = next here (calls 2 [] (acquire 100) (value 0) refl refl)

Reach-IsValid_example : IsValid locked_machine
Reach-IsValid_example = Reach-IsValid machine-IsValid one_Step

lock_acquire-Reach_example : lock_acquire 2 [] 100 locked_machine ≡ (
    if (locked_machine.lock 100).locked
    then switches (block [] 100 acquired (wanting 100 locked_machine))
    else returns 0 (set_lock 100 (λ x. record x { locked = true }) locked_machine))
lock_acquire-Reach_example = lock_acquire-Reach machine locked_machine 0 [] 100 (λ l. refl) one_Step

barrier_wait_lem_example :
    BarrierOutcome 300 machine (barrier_wait [] 300 machine)
    × ((barrier_wait [] 300 machine ≡ some (value 0, unblock_all 300 (set_m 300 0 machine)))
        ↔ (length (machine.waiting 300) + 1 ≡ (machine.barrier 300).n))
barrier_wait_lem_example =
    barrier_wait_lem [] 300 machine (record { counted = refl; fewer = omega arith })
