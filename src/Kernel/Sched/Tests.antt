-- ===== src/Kernel/Sched/Tests.antt =====
-- Runs of the scheduler of scheduler.c, and its theorems, on a machine with four tasks.
use ucas_coursework.Prelude.{
  ℕ, ◌≡◌, refl, false, Option, none, some, List, [], ◌∷◌, arith, ◌==◌, if◌then◌else◌,
}
use ucas_coursework.Kernel.Sched.{
  Status, return, Pcb, Kernel, check_sleeping, check_sleeping_loop, idle, pick, put_current_running,
  scheduler, do_yield, do_sleep, timer_irq,
}
use ucas_coursework.Kernel.Sched.Wake.{Woken, deadlines, check_sleeping-Woken}
use ucas_coursework.Kernel.Sched.Live.{scheduler-wakes}

abbrev pub task : Status → ℕ → Pcb
task s d = record {
  status = s;
  pid = 7;
  priority = 1;
  deadline = d;
  entry_count = 0;
  nested_count = 0;
  blocking_lock = none;
  saved = return;
}

-- Task 1 runs, `ready` are ready, and 4 and 5 sleep, until 90 and until 20.
abbrev pub machine : List ℕ → ℕ → Kernel
machine ready now = record {
  pcb = λ t.
      if t == 4
      then task Status.sleeping 90
      else if t == 5
      then task Status.sleeping 20
      else task Status.ready 0;
  current = 1;
  ready_queue = ready;
  sleep_wait_queue = 4 ∷ 5 ∷ [];
  time_elapsed = now;
  waiting = λ q. [];
  lock = λ l. record { locked = false; held_task = none };
  semaphore = λ s. 0;
  barrier = λ b. record { n = 0; m = 0 };
}

-- The task that runs next.
abbrev next_task : Option Kernel → Option ℕ
next_task none = none
next_task (some k) = some k.current

yield_run : next_task (do_yield [] (machine (2 ∷ 3 ∷ []) 0)) ≡ some 2
unfolding do_yield scheduler idle check_sleeping check_sleeping_loop pick put_current_running
yield_run = refl

sleep_run : next_task (do_sleep [] 5000 (machine (2 ∷ 3 ∷ []) 0)) ≡ some 2
unfolding do_sleep scheduler idle check_sleeping check_sleeping_loop pick
sleep_run = refl

no_sleep_run : next_task (do_sleep [] 999 (machine (2 ∷ 3 ∷ []) 0)) ≡ some 1
unfolding do_sleep
no_sleep_run = refl

timer_run : next_task (timer_irq [] (machine [] 99)) ≡ some 1
unfolding timer_irq do_yield scheduler idle check_sleeping check_sleeping_loop pick
    put_current_running
timer_run = refl

idle_run : next_task (scheduler (50 ∷ 40 ∷ []) (machine [] 0)) ≡ some 4
unfolding scheduler idle check_sleeping check_sleeping_loop pick
idle_run = refl

check_sleeping-Woken_example :
    Woken (deadlines (machine [] 95)) (machine [] 95) (4 ∷ 5 ∷ []) (check_sleeping (machine [] 95))
check_sleeping-Woken_example = check_sleeping-Woken (machine [] 95)

scheduler-wakes_example :
    (k' : Kernel) × (scheduler (50 ∷ 40 ∷ []) (machine [] 0) ≡ some k') × (k'.current ≡ 4)
scheduler-wakes_example =
    scheduler-wakes (50 ∷ 40 ∷ []) (machine [] 0) 4 (5 ∷ []) refl refl (omega arith) (omega arith)
