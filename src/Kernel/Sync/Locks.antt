-- ===== src/Kernel/Sync/Locks.antt =====
-- `lock_acquire` can report no deadlock: no operation of sync.c records the holder of a lock.
use ucas_coursework.Prelude.{
  ℕ, suc, ◌≡◌, refl, Bool, true, false, Option, none, some, List, [], ◌∷◌, arith, ◌==◌, leb, is_nil,
  if◌then◌else◌, Bool-cases, inl, inr, ◌&&◌, not, ap, ◌+◌, ◌∙◌,
}
use ucas_coursework.Kernel.Sched.{
  Cont, return, acquired, reacquire, Kernel, modify, set_blocking_lock, set_saved, block, do_sleep,
  do_yield, do_exit, timer_irq,
}
use ucas_coursework.Kernel.Sched.Frame.{
  block-Blocked, do_sleep-SameShared, do_yield-SameShared, do_exit-SameShared, timer_irq-SameShared,
}
use ucas_coursework.Kernel.Sync.{
  returns, switches, set_lock, set_m, unblock_one, unblock_all, settle, deadlock_loop, lock_acquire,
  lock_release, condition_wait, condition_signal, condition_broadcast, semaphore_up, semaphore_down,
  barrier_wait, resume_with, resume, Call, acquire, release, wait, signal, broadcast, up, down,
  arrive, sleep, yield, exit, timer, go_on, exec, calls, goes_on, Reach, here, next,
}
use ucas_coursework.Kernel.Sync.Wake.{unblock_one-Released, unblock_one_nil, unblock_all-Released}
use ucas_coursework.Kernel.Sync.Inv.{Leaves, switches-Leaves, Leaves-apply}

-- No lock names a task that holds it.
abbrev pub Unnamed : Kernel → Type 0
Unnamed k = (l : ℕ) → (k.lock l).held_task ≡ none

same_locks-Unnamed : (k k' : Kernel) → k'.lock ≡ k.lock → Unnamed k → Unnamed k'
same_locks-Unnamed k k' e u l = ap (λ f. (f l).held_task) e ∙ u l

lock-unblock_one : (q : ℕ) (k : Kernel) → (unblock_one q k).1.lock ≡ k.lock
lock-unblock_one q k = go (k.waiting q) refl
  where
    go : (ts : List ℕ) → k.waiting q ≡ ts → (unblock_one q k).1.lock ≡ k.lock
    go [] e = rw (unblock_one_nil q k e)
    go (t ∷ ts) e = (unblock_one-Released q t ts k e).locks

lock_release-Unnamed : (l : ℕ) (k : Kernel) → Unnamed k → Unnamed (lock_release l k)
unfolding lock_release
lock_release-Unnamed l k u m =
    let same = ap (λ f. (f m).held_task) (lock-unblock_one l k) in
    elim (Bool-cases (unblock_one l k).0) [
      | inl woke ↦ rw woke (ground (arith, same, u m))
      | inr idle ↦ rw idle (ground (arith, same, u m))
    ]

-- The walk along the holders ends at the first lock.
pub deadlock_loop-false :
    (fuel t : ℕ) (k : Kernel) → Unnamed k → deadlock_loop (suc (suc fuel)) (some t) k ≡ some false
unfolding deadlock_loop
deadlock_loop-false f t k u = go (k.pcb t).blocking_lock refl
  where
    go :
        (o : Option ℕ)
        → (k.pcb t).blocking_lock ≡ o
        → deadlock_loop (suc (suc f)) (some t) k ≡ some false
    go none e = rw (e, deadlock_loop)
    go (some l) e = rw (e, u l, deadlock_loop)

-- Whatever the scheduler runs next, the locks are as they were.
block-Unnamed :
    (ticks : List ℕ) (q : ℕ) (c : Cont) (k : Kernel)
    → Unnamed k
    → Leaves Unnamed (switches (block ticks q c k))
block-Unnamed ticks q c k u =
    switches-Leaves Unnamed (block ticks q c k)
      λ k' e. same_locks-Unnamed k k' (block-Blocked ticks q c k e).locks u

-- The kernel in which the running task waits for the lock `l`.
abbrev pub wanting : ℕ → Kernel → Kernel
wanting l k = modify k.current (set_blocking_lock (some l)) k

module _ (fuel : ℕ) (ticks : List ℕ) where
  settle-Unnamed :
      (l : ℕ) (k : Kernel) (a : Option Bool) → Unnamed k → Leaves Unnamed (settle ticks l k a)
  settle-Unnamed l k none u = tt
  settle-Unnamed l k (some true) u = u
  settle-Unnamed l k (some false) u = block-Unnamed ticks l acquired k u

  lock_acquire-Unnamed :
      (l : ℕ) (k : Kernel) → Unnamed k → Leaves Unnamed (lock_acquire fuel ticks l k)
  unfolding lock_acquire
  lock_acquire-Unnamed l k u = elim (Bool-cases (k.lock l).locked) [
    | inl held ↦
        rw held
          (settle-Unnamed l (wanting l k) (deadlock_loop fuel (some k.current) (wanting l k)) u)
    | inr free ↦ rw free (λ m. ground (arith, u m))
  ]

  resume_with-Unnamed :
      (c : Cont) (k : Kernel) → Unnamed k → Leaves Unnamed (resume_with c fuel ticks k)
  resume_with-Unnamed return k u = u
  resume_with-Unnamed acquired k u = u
  resume_with-Unnamed (reacquire m) k u = lock_acquire-Unnamed m k u

  exec-Unnamed : (c : Call) (k : Kernel) → Unnamed k → Leaves Unnamed (exec fuel ticks c k)
  unfolding exec condition_wait condition_signal condition_broadcast resume semaphore_up
      semaphore_down barrier_wait
  exec-Unnamed (acquire l) k u = lock_acquire-Unnamed l k u
  exec-Unnamed (release l) k u = lock_release-Unnamed l k u
  exec-Unnamed (wait m c) k u =
      block-Unnamed ticks c (reacquire m) (lock_release m k) (lock_release-Unnamed m k u)
  exec-Unnamed (signal c) k u = same_locks-Unnamed k (unblock_one c k).1 (lock-unblock_one c k) u
  exec-Unnamed (broadcast c) k u =
      same_locks-Unnamed k (unblock_all c k) (unblock_all-Released c k).locks u
  exec-Unnamed (up s) k u = elim (Bool-cases ((k.semaphore s == 0) && not (is_nil (k.waiting s)))) [
    | inl wakes ↦ rw wakes (same_locks-Unnamed k (unblock_one s k).1 (lock-unblock_one s k) u)
    | inr counts ↦ rw counts u
  ]
  exec-Unnamed (down s) k u = elim (Bool-cases (k.semaphore s == 0)) [
    | inl zero_left ↦ rw zero_left (block-Unnamed ticks s return k u)
    | inr some_left ↦ rw some_left u
  ]
  exec-Unnamed (arrive b) k u = elim (Bool-cases (leb (k.barrier b).n ((k.barrier b).m + 1))) [
    | inl last ↦ rw last (
        same_locks-Unnamed k (unblock_all b (set_m b 0 k))
          (unblock_all-Released b (set_m b 0 k)).locks u)
    | inr early ↦ rw early (block-Unnamed ticks b return (set_m b ((k.barrier b).m + 1) k) u)
  ]
  exec-Unnamed (sleep ms) k u =
      switches-Leaves Unnamed (do_sleep ticks ms k)
        λ k' e. same_locks-Unnamed k k' (do_sleep-SameShared ticks k k' ms e).locks u
  exec-Unnamed yield k u =
      switches-Leaves Unnamed (do_yield ticks k)
        λ k' e. same_locks-Unnamed k k' (do_yield-SameShared ticks k k' e).locks u
  exec-Unnamed exit k u =
      switches-Leaves Unnamed (do_exit ticks k)
        λ k' e. same_locks-Unnamed k k' (do_exit-SameShared ticks k k' e).locks u
  exec-Unnamed timer k u =
      switches-Leaves Unnamed (timer_irq ticks k)
        λ k' e. same_locks-Unnamed k k' (timer_irq-SameShared ticks k k' e).locks u
  exec-Unnamed go_on k u =
      resume_with-Unnamed (k.pcb k.current).saved (modify k.current (set_saved return) k) u

Reach-Unnamed : {k k' : Kernel} → Unnamed k → Reach k k' → Unnamed k'
Reach-Unnamed u here = u
Reach-Unnamed u (next {k₁} r (calls fuel ticks c v idle e)) =
    Leaves-apply Unnamed _ (exec-Unnamed fuel ticks c k₁ (Reach-Unnamed u r)) e
Reach-Unnamed u (next {k₁} r (goes_on fuel ticks v e)) =
    Leaves-apply Unnamed _ (exec-Unnamed fuel ticks go_on k₁ (Reach-Unnamed u r)) e

-- Since `lock_init` no operation has named a holder, so in every kernel that is reached `lock_acquire`
-- takes a free lock and blocks on a held one, and two rounds of its walk are fuel enough: it never
-- returns 1, also where the task that holds the lock waits for one that the caller holds.
pub lock_acquire-Reach :
    (k k' : Kernel) (fuel : ℕ) (ticks : List ℕ) (l : ℕ)
    → Unnamed k
    → Reach k k'
    → lock_acquire (suc (suc fuel)) ticks l k' ≡ (
        if (k'.lock l).locked
        then switches (block ticks l acquired (wanting l k'))
        else returns 0 (set_lock l (λ x. record x { locked = true }) k'))
unfolding lock_acquire
lock_acquire-Reach k k' f ticks l u r =
    rw (deadlock_loop-false f k'.current (wanting l k') (Reach-Unnamed u r))
