-- ===== src/Kernel/Process/Tests.antt =====
-- Runs of the process control of kernel.c, and its theorem, on a machine with three PCBs.
use ucas_coursework.Prelude.{
  ℕ, ◌≡◌, ◌+◌, refl, false, Option, none, some, List, [], ◌∷◌, ◌==◌, if◌then◌else◌,
}
use ucas_coursework.Kernel.Sched.{Status, return, Pcb, Kernel}
use ucas_coursework.Kernel.Process.{do_kill, do_wait}

abbrev task : Status → ℕ → Pcb
task s pid = record {
  status = s;
  pid = pid;
  priority = 1;
  deadline = 0;
  entry_count = 0;
  nested_count = 0;
  blocking_lock = none;
  saved = return;
}

-- PCB 0 runs with pid 5, PCB 1 is ready with pid 6, and PCB 2 is free.
abbrev machine : Kernel
machine = record {
  pcb = λ t.
      if t == 0
      then task Status.ready 5
      else if t == 1
      then task Status.ready 6
      else task Status.exited 0;
  current = 0;
  ready_queue = 1 ∷ [];
  sleep_wait_queue = [];
  time_elapsed = 0;
  waiting = λ q. [];
  lock = λ l. record { locked = false; held_task = none };
  semaphore = λ s. 0;
  barrier = λ b. record { n = 0; m = 0 };
}

abbrev queue_at : ℕ → ℕ
queue_at i = i + 1000

abbrev ready_after : Option Kernel → Option (List ℕ)
ready_after none = none
ready_after (some k) = some k.ready_queue

kill_run : ready_after (do_kill 3 [] queue_at 6 machine) ≡ some []
unfolding do_kill
kill_run = refl

wait_run : ready_after (do_wait 3 [] queue_at 6 machine) ≡ some []
unfolding do_wait
wait_run = refl
