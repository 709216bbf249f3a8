-- ===== src/Kernel/Process/Effects.antt =====
-- What do_spawn, do_kill and do_wait of kernel.c, Operating System/p4-Synchronization-Primitives-IPC, do and
-- where they fail.
use ucas_coursework.Prelude.{ℕ, ◌<◌, ◌≡◌, ◌≢◌, Option, none, some, List, [], ◌∷◌, ◌++◌, ◌∈◌, ◌⊎◌}
use ucas_coursework.Kernel.Sched.{Status, Kernel, modify, set_status}
use ucas_coursework.Kernel.Sched.Inv.{IsValid}
use ucas_coursework.Kernel.Sync.{unblock_all}
use ucas_coursework.Kernel.Process.Found.{Live, NoLive}
use ucas_coursework.Kernel.Process.Steps.{Spawned, Killed}

module _ (num_pcbs : ℕ) (ticks : List ℕ) (wait_queue : ℕ → ℕ) (pid : ℕ) (k : Kernel)
    (v : IsValid k) where
  -- A new task takes the PCB of one that has exited; the source uses `pcb[-1]` where there is none.
  abbrev pub Spawns : Option (ℕ × Kernel) → Type 0
  Spawns none = (i : ℕ) → i < num_pcbs → (k.pcb i).status ≢ Status.exited
  Spawns (some (times', k')) = (num : ℕ) × (num < num_pcbs) × Spawned pid num k times' k'

  -- The running task has exited and another runs, and no task waits for its end any more.
  abbrev pub KillsSelf : Option Kernel → Type 0
  KillsSelf none = NoLive num_pcbs k pid ⊎ (k.ready_queue ≡ [])
  KillsSelf (some k') =
      (num : ℕ) × Live num_pcbs k pid num
      × IsValid k'
      × ((k'.pcb k.current).status ≡ Status.exited)
      × (k'.waiting (wait_queue num) ≡ [])

  -- Another task with the pid is killed; the source uses `pcb[-1]` where there is none.
  abbrev pub KillsOther : Option Kernel → Type 0
  KillsOther none = NoLive num_pcbs k pid
  KillsOther (some k') = (num : ℕ) × Live num_pcbs k pid num × Killed num (wait_queue num) k k'

  -- The running task is the last of those that wait for the end of the task.
  abbrev pub Waits : Option Kernel → Type 0
  Waits none = NoLive num_pcbs k pid ⊎ (k.ready_queue ≡ [])
  Waits (some k') =
      (num : ℕ) × Live num_pcbs k pid num
      × IsValid k'
      × (k'.waiting (wait_queue num) ≡ k.waiting (wait_queue num) ++ (k.current ∷ []))

  module _ (num : ℕ) (live : Live num_pcbs k pid num) where
    -- The kernel when the running task has exited, before the scheduler runs
    abbrev left : Kernel
    left = unblock_all (wait_queue num) (modify k.current (set_status Status.exited) k)

  abbrev pub Kills : Option Kernel → Type 0
  Kills o =
      ((pid ≡ (k.pcb k.current).pid) × KillsSelf o) ⊎ ((pid ≢ (k.pcb k.current).pid) × KillsOther o)

abbrev pub InQueue : Kernel → ℕ → Type 0
InQueue k t = (t ∈ k.ready_queue) ⊎ ((t ∈ k.sleep_wait_queue) ⊎ ((q : ℕ) × (t ∈ k.waiting q)))
