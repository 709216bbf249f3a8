-- ===== src/Kernel/Process/Found.antt =====
-- What the two searches over the PCBs in kernel.c of Operating System/p4-Synchronization-Primitives-IPC find,
-- and that the scheduler leaves a task that has exited alone.
use ucas_coursework.Prelude.{
  ℕ, zero, suc, ◌+◌, ◌≤◌, ◌<◌, ◌≡◌, ◌≢◌, refl, ap, ◌∙◌, sym, Bool, true, false, none, some, List,
  [], ◌∷◌, arith, ◌==◌, ==_iff, ◌&&◌, not, ◌∉◌, Bool-cases, inl, inr, some_inj, is_nil, length,
}
use ucas_coursework.Kernel.Sched.{
  Status, Kernel, wake_front, due, check_sleeping_loop, check_sleeping, pick_front, pick, advance,
  idle, scheduler,
}
use ucas_coursework.Kernel.Process.{is_exited, find, dead_task_find, pcb_with_pid_find}

exited_status : (s : Status) → is_exited s ≡ true → s ≡ Status.exited
exited_status Status.first_time e = absurd (cc e)
exited_status Status.ready e = absurd (cc e)
exited_status Status.blocked e = absurd (cc e)
exited_status Status.exited e = refl
exited_status Status.sleeping e = absurd (cc e)

live_status : (s : Status) → is_exited s ≡ false → s ≢ Status.exited
live_status s e q = let wrong : false ≡ true = sym e ∙ ap is_exited q in absurd (cc wrong)

-- The index that is found is in the range and passes the test.
find-some : (test : ℕ → Bool) (i n j : ℕ) → find test i n ≡ some j → (j < i + n) × (test j ≡ true)
unfolding find
find-some test i zero j e = absurd (cc e)
find-some test i (suc n) j e = elim (Bool-cases (test i)) [
  | inl holds ↦
      let same : i ≡ j = some_inj (rw holds at e) in
      (omega (arith, same), ap test (sym same) ∙ holds)
  | inr fails ↦
      let (lt, passes) = find-some test (i + 1) n j (rw fails at e) in (omega (arith, lt), passes)
]

find-none :
    (test : ℕ → Bool) (i n j : ℕ) → find test i n ≡ none → i ≤ j → j < i + n → test j ≡ false
unfolding find
find-none test i zero j e le lt = absurd (omega arith)
find-none test i (suc n) j e le lt = elim (Bool-cases (test i)) [
  | inl holds ↦ let wrong : some i ≡ none = rw holds at e in absurd (cc wrong)
  | inr fails ↦ elim (Bool-cases (i == j)) [
    | inl here ↦ ap test (sym ((==_iff i j).0 here)) ∙ fails
    | inr on ↦ find-none test (i + 1) n j (rw fails at e) (ground arith) (omega arith)
  ]
]

module _ (num_pcbs : ℕ) (k : Kernel) where
  -- A PCB of a task with the pid, that has not exited
  pub record Live (pid num : ℕ) : Type 0 where
    pub within : num < num_pcbs
    pub named : (k.pcb num).pid ≡ pid
    pub lives : (k.pcb num).status ≢ Status.exited

  abbrev pub NoLive : ℕ → Type 0
  NoLive pid = (i : ℕ) → i < num_pcbs → (k.pcb i).pid ≡ pid → (k.pcb i).status ≡ Status.exited

  pub dead-some :
      (num : ℕ)
      → dead_task_find num_pcbs k ≡ some num
      → (num < num_pcbs) × ((k.pcb num).status ≡ Status.exited)
  unfolding dead_task_find
  dead-some num e =
      let (lt, passes) = find-some (λ i. is_exited (k.pcb i).status) 0 num_pcbs num e in
      (omega (arith, lt), exited_status (k.pcb num).status passes)

  pub dead-none :
      dead_task_find num_pcbs k ≡ none → (i : ℕ) → i < num_pcbs → (k.pcb i).status ≢ Status.exited
  unfolding dead_task_find
  dead-none e i lt =
      live_status (k.pcb i).status
        (find-none (λ i. is_exited (k.pcb i).status) 0 num_pcbs i e (omega arith) (omega arith))

  abbrev is_live : ℕ → ℕ → Bool
  is_live pid i = (k.pcb i).pid == pid && not (is_exited (k.pcb i).status)

  pub pid-some : (pid num : ℕ) → pcb_with_pid_find num_pcbs pid k ≡ some num → Live pid num
  unfolding pcb_with_pid_find
  pid-some pid num e =
      let (lt, passes) = find-some (is_live pid) 0 num_pcbs num e in
      record {
        within = omega (arith, lt);
        named = ground (arith, passes);
        lives = live_status (k.pcb num).status (ground (arith, passes));
      }

  pub pid-none : (pid : ℕ) → pcb_with_pid_find num_pcbs pid k ≡ none → NoLive pid
  unfolding pcb_with_pid_find
  pid-none pid e i lt named =
      let fails = find-none (is_live pid) 0 num_pcbs i e (omega arith) (omega arith) in
      exited_status (k.pcb i).status (ground (arith, fails, named))

-- A task that does not sleep keeps its status while sleepers wake.
record Left (t : ℕ) (k k' : Kernel) : Type 0 where
  status : (k'.pcb t).status ≡ (k.pcb t).status
  awake : t ∉ k'.sleep_wait_queue

wake_front-Left :
    (t : ℕ) (ts : List ℕ) (k : Kernel)
    → k.sleep_wait_queue ≡ ts
    → t ∉ ts
    → Left t k (wake_front ts k)
wake_front-Left t [] k e out = record { status = refl; awake = rw e out }
wake_front-Left t (s ∷ ts) k e out = record {
  status = ground (arith, out);
  awake = ground (arith, out);
}

check_sleeping_loop-Left :
    (t fuel : ℕ) (k : Kernel) → t ∉ k.sleep_wait_queue → Left t k (check_sleeping_loop fuel k)
unfolding check_sleeping_loop
check_sleeping_loop-Left t zero k out = record { status = refl; awake = out }
check_sleeping_loop-Left t (suc f) k out = elim (Bool-cases (due k.sleep_wait_queue k)) [
  | inl more ↦
      let one = wake_front-Left t k.sleep_wait_queue k refl out in
      let rest = check_sleeping_loop-Left t f (wake_front k.sleep_wait_queue k) one.awake in
      rw more (record { status = rest.status ∙ one.status; awake = rest.awake })
  | inr over ↦ rw over (record { status = refl; awake = out })
]

check_sleeping-Left : (t : ℕ) (k : Kernel) → t ∉ k.sleep_wait_queue → Left t k (check_sleeping k)
unfolding check_sleeping
check_sleeping-Left t k out = check_sleeping_loop-Left t (length k.sleep_wait_queue) k out

pick_front-status :
    (t : ℕ) (ts : List ℕ) (k k' : Kernel)
    → pick_front ts k ≡ some k'
    → (k'.pcb t).status ≡ (k.pcb t).status
pick_front-status t [] k k' e = absurd (cc e)
pick_front-status t (s ∷ ts) k k' e =
    ap (λ (x : Kernel). (x.pcb t).status) (sym (some_inj e)) ∙ ground arith

idle-status :
    (t : ℕ) (ticks : List ℕ) (k k' : Kernel)
    → t ∉ k.sleep_wait_queue
    → idle ticks k ≡ some k'
    → (k'.pcb t).status ≡ (k.pcb t).status
unfolding idle pick
idle-status t [] k k' out e = pick_front-status t k.ready_queue k k' e
idle-status t (n ∷ ticks) k k' out e = elim (Bool-cases (is_nil k.ready_queue)) [
  | inl empty ↦
      let one = check_sleeping-Left t (advance n k) out in
      idle-status t ticks (check_sleeping (advance n k)) k' one.awake (rw empty at e) ∙ one.status
  | inr full ↦ pick_front-status t k.ready_queue k k' (rw full at e)
]

pub scheduler-status :
    (t : ℕ) (ticks : List ℕ) (k k' : Kernel)
    → t ∉ k.sleep_wait_queue
    → scheduler ticks k ≡ some k'
    → (k'.pcb t).status ≡ (k.pcb t).status
unfolding scheduler
scheduler-status t ticks k k' out e =
    let one = check_sleeping-Left t k out in
    idle-status t ticks (check_sleeping k) k' one.awake e ∙ one.status
