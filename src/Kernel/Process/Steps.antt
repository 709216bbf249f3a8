-- ===== src/Kernel/Process/Steps.antt =====
-- What the steps of do_spawn and do_kill of kernel.c, Operating System/p4-Synchronization-Primitives-IPC, do.
use ucas_coursework.Prelude.{
  ℕ, ◌+◌, ◌≡◌, ◌≢◌, refl, ap, ◌∙◌, Bool, [], ◌∷◌, ◌++◌, arith, ==_refl, ==_ne, has, ◌∈◌, ◌∉◌,
  has-append,
}
use ucas_coursework.Kernel.Sched.{Status, Kernel, modify, set_status}
use ucas_coursework.Kernel.Sched.Inv.{IsValid, Free}
use ucas_coursework.Kernel.Sync.{unblock_all}
use ucas_coursework.Kernel.Sync.Wake.{unblock_all-IsValid, unblock_all-Released, Released}
use ucas_coursework.Kernel.Process.{is_exited, spawn_at, unlink_task, kill_other}
use ucas_coursework.Kernel.Process.Inv.{exited-Free, spawn_at-IsValid, killed-IsValid, has-without}

-- The new task in the PCB `num`
pub record Spawned (times num : ℕ) (k : Kernel) (times' : ℕ) (k' : Kernel) : Type 0 where
  pub valid : IsValid k'
  pub counted : times' ≡ times + 1
  pub was_dead : (k.pcb num).status ≡ Status.exited
  pub pid : (k'.pcb num).pid ≡ times
  pub status : (k'.pcb num).status ≡ Status.first_time
  pub ready : k'.ready_queue ≡ k.ready_queue ++ (num ∷ [])
  pub others : (t : ℕ) → t ≢ num → k'.pcb t ≡ k.pcb t
  pub running : k'.current ≡ k.current

pub spawn_at-Spawned :
    (num queue times : ℕ) (kt : Bool) (k : Kernel)
    → IsValid k
    → (k.pcb num).status ≡ Status.exited
    → Spawned times num k (times + 1) (spawn_at num queue times kt k)
spawn_at-Spawned num queue times kt k v dead = record {
  valid = spawn_at-IsValid num queue times kt k v (ap is_exited dead);
  counted = refl;
  was_dead = dead;
  pid = unfold spawn_at in rw (==_refl num) refl;
  status = unfold spawn_at in rw (==_refl num) refl;
  ready = unfold spawn_at in refl;
  others = λ t ne. unfold spawn_at in rw (==_ne t num ne) refl;
  running = unfold spawn_at in refl;
}

-- The task `num`, killed by another; `q` is the queue of the tasks that wait for its end.
pub record Killed (num q : ℕ) (k k' : Kernel) : Type 0 where
  pub valid : IsValid k'
  pub exited : (k'.pcb num).status ≡ Status.exited
  pub free : Free k' num
  pub woken :
      (t : ℕ)
      → t ∈ k.waiting q
      → t ≢ num
      → (t ∈ k'.ready_queue) × ((k'.pcb t).status ≡ Status.ready)
  pub others : (t : ℕ) → t ≢ num → t ∉ k.waiting q → k'.pcb t ≡ k.pcb t
  pub still_ready : (t : ℕ) → t ≢ num → t ∈ k.ready_queue → t ∈ k'.ready_queue
  pub running : k'.current ≡ k.current

module _ (num q : ℕ) (k : Kernel) where
  -- The kernel without the task, before the tasks that wait for it go on
  abbrev gone : Kernel
  gone = modify num (set_status Status.exited) (unlink_task num k)

  has-gone : (t : ℕ) → t ≢ num → has t (gone.waiting q) ≡ has t (k.waiting q)
  unfolding unlink_task
  has-gone t ne = ground (arith, has-without t num (k.waiting q), ne)

  num-gone : num ∉ gone.waiting q
  unfolding unlink_task
  num-gone = ground (arith, has-without num num (k.waiting q))

  ready-gone : (t : ℕ) → t ≢ num → t ∈ k.ready_queue → t ∈ gone.ready_queue
  unfolding unlink_task
  ready-gone t ne i = ground (arith, has-without t num k.ready_queue, ne, i)

  pcb-gone : (t : ℕ) → t ≢ num → gone.pcb t ≡ k.pcb t
  unfolding unlink_task
  pcb-gone t ne = rw (==_ne t num ne) refl

  current-gone : gone.current ≡ k.current
  unfolding unlink_task
  current-gone = refl

  num-exited : (gone.pcb num).status ≡ Status.exited
  unfolding unlink_task
  num-exited = rw (==_refl num) refl

  Released-Killed :
      (k' : Kernel) → IsValid k' → Released q (gone.waiting q) [] gone k' → Killed num q k k'
  Released-Killed k' valid r =
      let exited : (k'.pcb num).status ≡ Status.exited =
        ap (λ p. p.status) (r.pcbs num) ∙ rw num-gone num-exited in
      record {
        valid = valid;
        exited = exited;
        free = exited-Free k' num valid.placed (ap is_exited exited);
        woken = λ t i ne.
            let waits : t ∈ gone.waiting q = has-gone t ne ∙ i in
            (
              ap (has t) r.ready
                  ∙ ground (arith, has-append t gone.ready_queue (gone.waiting q), waits),
              ap (λ p. p.status) (r.pcbs t) ∙ rw waits refl,
            );
        others = λ t ne out. r.pcbs t ∙ rw (has-gone t ne ∙ out) refl ∙ pcb-gone t ne;
        still_ready = λ t ne i.
            ap (has t) r.ready
            ∙ ground (arith, has-append t gone.ready_queue (gone.waiting q), ready-gone t ne i);
        running = r.running ∙ current-gone;
      }

  pub kill_other-Killed : IsValid k → num ≢ k.current → Killed num q k (kill_other num q k)
  unfolding kill_other
  kill_other-Killed v ne =
      Released-Killed (unblock_all q gone) (unblock_all-IsValid q gone (killed-IsValid num k v ne))
        (unblock_all-Released q gone)
