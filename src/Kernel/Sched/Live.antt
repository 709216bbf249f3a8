-- ===== src/Kernel/Sched/Live.antt =====
-- Which task `scheduler` gives the processor to, and when it returns at all.
use Prim.Native.Nat.{ℕ, ◌+◌, ◌^◌, ◌<◌, ◌≤◌}
use ucas_coursework.Prelude.{
  ◌≡◌, refl, true, false, some, List, [], ◌∷◌, ◌++◌, arith, leb, is_nil, Bool-cases, inl, inr, ap,
  ◌∙◌,
}
use ucas_coursework.Kernel.Sched.{
  Kernel, modify, count_entry, check_sleeping, pick_front, pick, advance, idle, scheduler,
}
use ucas_coursework.Kernel.Sched.Wake.{
  take_due, deadlines, check_sleeping-Woken, check_sleeping-behind,
}

-- The kernel after `pick` where `t` is the first of the ready tasks.
abbrev picked : ℕ → List ℕ → Kernel → Kernel
picked t ts k = record (modify t count_entry k) { current = t; ready_queue = ts }

idle-picked :
    (ticks : List ℕ) (k : Kernel) (t : ℕ) (ts : List ℕ)
    → k.ready_queue ≡ t ∷ ts
    → idle ticks k ≡ some (picked t ts k)
unfolding idle pick
idle-picked [] k t ts e = ap (λ l. pick_front l k) e
idle-picked (n ∷ ticks) k t ts e =
    let full : is_nil k.ready_queue ≡ false = ap is_nil e in rw full (ap (λ l. pick_front l k) e)

-- The tasks are served in the order in which they became ready: `scheduler` gives the processor to the
-- first, whatever sleepers it wakes, and those stand behind the tasks that were ready before them.
pub scheduler-first :
    (ticks : List ℕ) (k : Kernel) (t : ℕ) (ts : List ℕ)
    → k.ready_queue ≡ t ∷ ts
    → (k' : Kernel) × (scheduler ticks k ≡ some k')
      × (k'.current ≡ t)
      × (k'.ready_queue ≡ ts ++ take_due (deadlines k) k.time_elapsed k.sleep_wait_queue)
unfolding scheduler
scheduler-first ticks k t ts e =
    let w = check_sleeping-Woken k in
    let rest : List ℕ = ts ++ take_due (deadlines k) k.time_elapsed k.sleep_wait_queue in
    let ready =
      w.ready ∙ ap (λ l. l ++ take_due (deadlines k) k.time_elapsed k.sleep_wait_queue) e in
    (
      picked t rest (check_sleeping k),
      idle-picked ticks (check_sleeping k) t rest ready,
      refl,
      refl,
    )

-- The timer interrupts that come in a list of rounds.
abbrev pub total : List ℕ → ℕ
total [] = 0
total (n ∷ ticks) = n + total ticks

-- `check_sleeping` with no task ready makes the first sleeper the first ready task, once it is due.
woken-first :
    (k : Kernel) (t : ℕ) (ts : List ℕ)
    → k.ready_queue ≡ []
    → k.sleep_wait_queue ≡ t ∷ ts
    → (k.pcb t).deadline ≤ k.time_elapsed
    → (check_sleeping k).ready_queue ≡ t ∷ take_due (deadlines k) k.time_elapsed ts
unfolding take_due
woken-first k t ts r e now =
    let due_now : leb (deadlines k t) k.time_elapsed ≡ true = ground arith in
    (check_sleeping-Woken k).ready
    ∙ ap (λ l. l ++ take_due (deadlines k) k.time_elapsed k.sleep_wait_queue) r
    ∙ ap (take_due (deadlines k) k.time_elapsed) e
    ∙ rw due_now

idle-wakes :
    (ticks : List ℕ) (k : Kernel) (t : ℕ) (ts : List ℕ)
    → k.ready_queue ≡ []
    → k.sleep_wait_queue ≡ t ∷ ts
    → k.time_elapsed < (k.pcb t).deadline
    → (k.pcb t).deadline ≤ k.time_elapsed + total ticks
    → k.time_elapsed + total ticks < 2 ^ 64
    → (k' : Kernel) × (idle ticks k ≡ some k') × (k'.current ≡ t)
unfolding idle
idle-wakes [] k t ts r e wait soon fits = absurd (omega arith)
idle-wakes (n ∷ ticks) k t ts r e wait soon fits =
    let k₁ : Kernel = advance n k in
    let time : k₁.time_elapsed ≡ k.time_elapsed + n = omega arith in
    let empty : is_nil k.ready_queue ≡ true = ap is_nil r in
    elim (Bool-cases (leb (k.pcb t).deadline k₁.time_elapsed)) [
      | inl now ↦
          let ready = woken-first k₁ t ts r e (ground arith) in
          let due = take_due (deadlines k₁) k₁.time_elapsed ts in
          (
            picked t due (check_sleeping k₁),
            rw empty (idle-picked ticks (check_sleeping k₁) t due ready),
            refl,
          )
      | inr later ↦
          let (k', run, cur) =
            idle-wakes ticks k₁ t ts r e (ground arith) (omega arith) (omega arith) in
          (k', rw (empty, check_sleeping-behind k₁ t ts e (ground arith)) run, cur)
    ]

-- Where no task is ready, `scheduler` waits, and returns with the first sleeper once as many timer
-- interrupts have come as its deadline asks for. (The 64-bit clock does not wrap.)
pub scheduler-wakes :
    (ticks : List ℕ) (k : Kernel) (t : ℕ) (ts : List ℕ)
    → k.ready_queue ≡ []
    → k.sleep_wait_queue ≡ t ∷ ts
    → (k.pcb t).deadline ≤ k.time_elapsed + total ticks
    → k.time_elapsed + total ticks < 2 ^ 64
    → (k' : Kernel) × (scheduler ticks k ≡ some k') × (k'.current ≡ t)
unfolding scheduler
scheduler-wakes ticks k t ts r e soon fits =
    elim (Bool-cases (leb (k.pcb t).deadline k.time_elapsed)) [
      | inl now ↦ (
        _,
        idle-picked ticks (check_sleeping k) t _ (woken-first k t ts r e (ground arith)),
        refl,
      )
      | inr later ↦
          rw (check_sleeping-behind k t ts e (ground arith))
            (idle-wakes ticks k t ts r e (ground arith) soon fits)
    ]
