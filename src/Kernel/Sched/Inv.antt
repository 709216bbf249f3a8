-- ===== src/Kernel/Sched/Inv.antt =====
-- No task is in two queues, or twice in one, and its status says in which it is. That is what the links
-- of queue.c need, since a PCB has one pair of them.
use ucas_coursework.Prelude.{
  ℕ, ◌≡◌, Bool, true, false, arith, ◌∈◌, ◌∉◌, Distinct, Distinct-snoc, has-snoc,
}
use ucas_coursework.Kernel.Sched.{Status, Cont, Pcb, Kernel, modify, advance, suspend, unblock}

-- What the status of a task that may run is.
abbrev pub runnable : Status → Bool
runnable Status.first_time = true
runnable Status.ready = true
runnable Status.blocked = false
runnable Status.exited = false
runnable Status.sleeping = false

pub record Placed (k : Kernel) : Type 0 where
  pub ready : (t : ℕ) → t ∈ k.ready_queue → runnable (k.pcb t).status ≡ true
  pub asleep : (t : ℕ) → t ∈ k.sleep_wait_queue → (k.pcb t).status ≡ Status.sleeping
  pub waits : (q t : ℕ) → t ∈ k.waiting q → (k.pcb t).status ≡ Status.blocked
  pub one_queue : (q r t : ℕ) → t ∈ k.waiting q → t ∈ k.waiting r → q ≡ r
  pub ready_once : Distinct k.ready_queue
  pub asleep_once : Distinct k.sleep_wait_queue
  pub waits_once : (q : ℕ) → Distinct (k.waiting q)

-- The running task is in no queue and may run.
pub record IsValid (k : Kernel) : Type 0 where
  pub placed : Placed k
  pub runs : runnable (k.pcb k.current).status ≡ true
  pub taken : k.current ∉ k.ready_queue

-- A task that no queue holds.
pub record Free (k : Kernel) (t : ℕ) : Type 0 where
  pub not_ready : t ∉ k.ready_queue
  pub not_asleep : t ∉ k.sleep_wait_queue
  pub not_waiting : (q : ℕ) → t ∉ k.waiting q

pub current-Free : (k : Kernel) → IsValid k → Free k k.current
current-Free k v = record {
  not_ready = v.taken;
  not_asleep = ground (arith, v.placed.asleep k.current, v.runs);
  not_waiting = λ q. ground (arith, v.placed.waits q k.current, v.runs);
}

pub unblock-Placed : (k : Kernel) (t : ℕ) → Placed k → Free k t → Placed (unblock t k)
unfolding unblock
unblock-Placed k t p f = record {
  ready = λ s i. ground (arith, p.ready s, has-snoc s k.ready_queue t);
  asleep = λ s i. ground (arith, p.asleep s, f.not_asleep);
  waits = λ q s i. ground (arith, p.waits q s, f.not_waiting q);
  one_queue = p.one_queue;
  ready_once = Distinct-snoc t k.ready_queue p.ready_once f.not_ready;
  asleep_once = p.asleep_once;
  waits_once = p.waits_once;
}

pub suspend-Placed :
    (k : Kernel) (q : ℕ) (c : Cont) → Placed k → Free k k.current → Placed (suspend q c k)
unfolding suspend
suspend-Placed k q c p f = record {
  ready = λ s i. ground (arith, p.ready s, f.not_ready);
  asleep = λ s i. ground (arith, p.asleep s, f.not_asleep);
  waits = λ r s i. ground (arith, p.waits r s, f.not_waiting r, has-snoc s (k.waiting q) k.current);
  one_queue = λ r r' s i j. ground (
    arith,
    p.one_queue r r' s,
    p.one_queue q r' s,
    p.one_queue r q s,
    f.not_waiting r,
    f.not_waiting r',
    has-snoc s (k.waiting q) k.current,
  );
  ready_once = p.ready_once;
  asleep_once = p.asleep_once;
  waits_once = λ r. ground (
    arith,
    p.waits_once r,
    Distinct-snoc k.current (k.waiting q) (p.waits_once q) (f.not_waiting q),
  );
}

pub advance-Placed : (k : Kernel) (n : ℕ) → Placed k → Placed (advance n k)
advance-Placed k n p = record {
  ready = p.ready;
  asleep = p.asleep;
  waits = p.waits;
  one_queue = p.one_queue;
  ready_once = p.ready_once;
  asleep_once = p.asleep_once;
  waits_once = p.waits_once;
}

-- A change of a PCB that keeps its status.
module _ (t : ℕ) (f : Pcb → Pcb) (same : (x : Pcb) → (f x).status ≡ x.status) where
  pub modify-Placed : (k : Kernel) → Placed k → Placed (modify t f k)
  modify-Placed k p = record {
    ready = λ s i. ground (arith, p.ready s, same (k.pcb t));
    asleep = λ s i. ground (arith, p.asleep s, same (k.pcb t));
    waits = λ q s i. ground (arith, p.waits q s, same (k.pcb t));
    one_queue = p.one_queue;
    ready_once = p.ready_once;
    asleep_once = p.asleep_once;
    waits_once = p.waits_once;
  }

  pub modify-IsValid : (k : Kernel) → IsValid k → IsValid (modify t f k)
  modify-IsValid k v = record {
    placed = modify-Placed k v.placed;
    runs = ground (arith, v.runs, same (k.pcb t));
    taken = v.taken;
  }
