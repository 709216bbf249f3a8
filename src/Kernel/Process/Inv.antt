-- ===== src/Kernel/Process/Inv.antt =====
-- The steps of do_spawn and do_kill keep the kernel valid.
use ucas_coursework.Prelude.{
  ℕ, ◌≡◌, ◌≢◌, refl, Bool, true, List, [], ◌∷◌, arith, ◌==◌, ◌&&◌, not, has, Distinct, has-snoc,
  Distinct-snoc, length,
}
use ucas_coursework.Kernel.Sched.{Status, Kernel, modify, set_status}
use ucas_coursework.Kernel.Sched.Inv.{Placed, IsValid, Free}
use ucas_coursework.Kernel.Sync.{unblock_all}
use ucas_coursework.Kernel.Sync.Wake.{unblock_loop-Placed}
use ucas_coursework.Kernel.Process.{is_exited, spawn_at, without, unlink_task}

-- A task that has exited is in no queue.
pub exited-Free : (k : Kernel) (t : ℕ) → Placed k → is_exited (k.pcb t).status ≡ true → Free k t
exited-Free k t p e = record {
  not_ready = ground (arith, p.ready t);
  not_asleep = ground (arith, p.asleep t);
  not_waiting = λ q. ground (arith, p.waits q t);
}

pub spawn_at-IsValid :
    (num queue pid : ℕ) (kernel_thread : Bool) (k : Kernel)
    → IsValid k
    → is_exited (k.pcb num).status ≡ true
    → IsValid (spawn_at num queue pid kernel_thread k)
unfolding spawn_at
spawn_at-IsValid num queue pid kt k v e =
    let p = v.placed in
    let f = exited-Free k num p e in
    record {
      placed = record {
        ready = λ s i. ground (arith, p.ready s, has-snoc s k.ready_queue num);
        asleep = λ s i. ground (arith, p.asleep s, f.not_asleep);
        waits = λ q s i. ground (arith, p.waits q s, f.not_waiting q);
        one_queue = λ q r s i j. ground (arith, p.one_queue q r s);
        ready_once = Distinct-snoc num k.ready_queue p.ready_once f.not_ready;
        asleep_once = p.asleep_once;
        waits_once = λ q. ground (arith, p.waits_once q);
      };
      runs = ground (arith, v.runs);
      taken = ground (arith, v.taken, v.runs, has-snoc k.current k.ready_queue num);
    }

pub has-without : (s t : ℕ) (xs : List ℕ) → has s (without t xs) ≡ (has s xs && not (s == t))
unfolding without
has-without s t [] = refl
has-without s t (x ∷ xs) = ground (arith, has-without s t xs)

Distinct-without : (t : ℕ) (xs : List ℕ) → Distinct xs → Distinct (without t xs)
unfolding without
Distinct-without t [] d = tt
Distinct-without t (x ∷ xs) d = ground (arith, has-without x t xs, Distinct-without t xs d.1)

-- The kernel without the task, which has exited.
pub killed-IsValid :
    (num : ℕ) (k : Kernel)
    → IsValid k
    → num ≢ k.current
    → IsValid (modify num (set_status Status.exited) (unlink_task num k))
unfolding unlink_task
killed-IsValid num k v other =
    let p = v.placed in
    record {
      placed = record {
        ready = λ s i. ground (arith, p.ready s, has-without s num k.ready_queue);
        asleep = λ s i. ground (arith, p.asleep s, has-without s num k.sleep_wait_queue);
        waits = λ q s i. ground (arith, p.waits q s, has-without s num (k.waiting q));
        one_queue = λ q r s i j. ground (
          arith,
          p.one_queue q r s,
          has-without s num (k.waiting q),
          has-without s num (k.waiting r),
        );
        ready_once = Distinct-without num k.ready_queue p.ready_once;
        asleep_once = Distinct-without num k.sleep_wait_queue p.asleep_once;
        waits_once = λ q. Distinct-without num (k.waiting q) (p.waits_once q);
      };
      runs = ground (arith, v.runs, other);
      taken = ground (arith, v.taken, has-without k.current num k.ready_queue);
    }

pub unblock_all-Placed : (q : ℕ) (k : Kernel) → Placed k → Placed (unblock_all q k)
unfolding unblock_all
unblock_all-Placed q k p = unblock_loop-Placed (length (k.waiting q)) q k p
