-- ===== src/Kernel/Sync/Wake.antt =====
-- What taking one waiter, or all, off a wait queue does.
use ucas_coursework.Prelude.{
  ℕ, zero, suc, ◌≡◌, ◌≢◌, refl, true, false, List, [], ◌∷◌, ◌++◌, arith, is_nil, length, append-nil,
  append_assoc, has, ◌∈◌, Distinct, ap, ◌∙◌, sym, update, if◌then◌else◌, has-append, Bool-cases,
  inl, inr,
}
use mathlib.Core.Path.{subst}
use ucas_coursework.Kernel.Sched.{Status, Kernel, set_status, unblock}
use ucas_coursework.Kernel.Sched.Inv.{Placed, IsValid, unblock-Placed}
use ucas_coursework.Kernel.Sync.{release_front, unblock_one, unblock_loop, unblock_all}

-- `k'` is `k` with the waiters `ts` of the queue at `q` made ready, in their order, and `rest` left.
pub record Released (q : ℕ) (ts rest : List ℕ) (k k' : Kernel) : Type 0 where
  pub ready : k'.ready_queue ≡ k.ready_queue ++ ts
  pub left : k'.waiting q ≡ rest
  pub others : (r : ℕ) → r ≢ q → k'.waiting r ≡ k.waiting r
  pub pcbs : (t : ℕ) → k'.pcb t ≡ (if has t ts then set_status Status.ready (k.pcb t) else k.pcb t)
  pub running : k'.current ≡ k.current
  pub sleepers : k'.sleep_wait_queue ≡ k.sleep_wait_queue
  pub locks : k'.lock ≡ k.lock
  pub semaphores : k'.semaphore ≡ k.semaphore
  pub barriers : k'.barrier ≡ k.barrier

release_front-Released :
    (q t : ℕ) (ts : List ℕ) (k : Kernel) → Released q (t ∷ []) ts k (release_front q (t ∷ ts) k).1
unfolding unblock
release_front-Released q t ts k = record {
  ready = refl;
  left = ground arith;
  others = λ r ne. ground arith;
  pcbs = λ s. ground arith;
  running = refl;
  sleepers = refl;
  locks = refl;
  semaphores = refl;
  barriers = refl;
}

module _ (q t : ℕ) (ts rest : List ℕ) {k k₁ k₂ : Kernel} where
  Released-cons :
      Released q (t ∷ []) ts k k₁ → Released q ts rest k₁ k₂ → Released q (t ∷ ts) rest k k₂
  Released-cons a b = record {
    ready = b.ready ∙ ap (λ l. l ++ ts) a.ready ∙ append_assoc k.ready_queue (t ∷ []) ts;
    left = b.left;
    others = λ r ne. b.others r ne ∙ a.others r ne;
    pcbs = λ s. ground (arith, a.pcbs s, b.pcbs s);
    running = b.running ∙ a.running;
    sleepers = b.sleepers ∙ a.sleepers;
    locks = b.locks ∙ a.locks;
    semaphores = b.semaphores ∙ a.semaphores;
    barriers = b.barriers ∙ a.barriers;
  }

pub unblock_one-Released :
    (q t : ℕ) (ts : List ℕ) (k : Kernel)
    → k.waiting q ≡ t ∷ ts
    → Released q (t ∷ []) ts k (unblock_one q k).1
unfolding unblock_one
unblock_one-Released q t ts k e =
    subst (λ l. Released q (t ∷ []) ts k (release_front q l k).1) (sym e)
      (release_front-Released q t ts k)

unblock_loop-Released :
    (ts : List ℕ) (q : ℕ) (k : Kernel)
    → k.waiting q ≡ ts
    → Released q ts [] k (unblock_loop (length ts) q k)
unfolding unblock_loop
unblock_loop-Released [] q k e = record {
  ready = sym (append-nil k.ready_queue);
  left = e;
  others = λ r ne. refl;
  pcbs = λ s. refl;
  running = refl;
  sleepers = refl;
  locks = refl;
  semaphores = refl;
  barriers = refl;
}
unblock_loop-Released (t ∷ ts) q k e =
    let some_left : is_nil (k.waiting q) ≡ false = ap is_nil e in
    let one = unblock_one-Released q t ts k e in
    rw some_left
      (Released-cons q t ts [] one (unblock_loop-Released ts q (unblock_one q k).1 one.left))

-- The loop that empties a wait queue makes every waiter ready, in the order in which they came, behind
-- the tasks that were ready, and changes nothing else.
pub unblock_all-Released : (q : ℕ) (k : Kernel) → Released q (k.waiting q) [] k (unblock_all q k)
unfolding unblock_all
unblock_all-Released q k = unblock_loop-Released (k.waiting q) q k refl

pub unblock_one_nil : (q : ℕ) (k : Kernel) → k.waiting q ≡ [] → unblock_one q k ≡ (false, k)
unfolding unblock_one
unblock_one_nil q k e = ap (λ l. release_front q l k) e

pub unblock_one_cons :
    (q t : ℕ) (ts : List ℕ) (k : Kernel) → k.waiting q ≡ t ∷ ts → (unblock_one q k).0 ≡ true
unfolding unblock_one
unblock_one_cons q t ts k e = ap (λ l. (release_front q l k).0) e

-- A waiter is taken off one queue, so no task is in two.
release_front-Placed :
    (q : ℕ) (ts : List ℕ) (k : Kernel)
    → Placed k
    → k.waiting q ≡ ts
    → Placed (release_front q ts k).1
release_front-Placed q [] k p e = p
release_front-Placed q (t ∷ ts) k p e =
    unblock-Placed k₁ t
      (record {
        ready = p.ready;
        asleep = p.asleep;
        waits = λ r s i. ground (arith, p.waits r s, mine s);
        one_queue = λ r r' s i j.
            ground (arith, p.one_queue r r' s, p.one_queue q r' s, p.one_queue r q s, mine s);
        ready_once = p.ready_once;
        asleep_once = p.asleep_once;
        waits_once = λ r. ground (arith, p.waits_once r, once);
      })
      (record {
        not_ready = ground (arith, p.ready t, p.waits q t here);
        not_asleep = ground (arith, p.asleep t, p.waits q t here);
        not_waiting = λ r. ground (arith, p.one_queue q r t here, once);
      })
  where
    k₁ : Kernel
    k₁ = record k { waiting = update k.waiting q ts }

    once : Distinct (t ∷ ts)
    once = rw e at (p.waits_once q)

    mine : (s : ℕ) → s ∈ (t ∷ ts) → s ∈ k.waiting q
    mine s i = rw e i

    here : t ∈ k.waiting q
    here = mine t (ground arith)

pub unblock_one-Placed : (q : ℕ) (k : Kernel) → Placed k → Placed (unblock_one q k).1
unfolding unblock_one
unblock_one-Placed q k p = release_front-Placed q (k.waiting q) k p refl

pub unblock_loop-Placed : (fuel q : ℕ) (k : Kernel) → Placed k → Placed (unblock_loop fuel q k)
unfolding unblock_loop
unblock_loop-Placed zero q k p = p
unblock_loop-Placed (suc f) q k p = elim (Bool-cases (is_nil (k.waiting q))) [
  | inl done ↦ rw done p
  | inr more ↦ rw more (unblock_loop-Placed f q (unblock_one q k).1 (unblock_one-Placed q k p))
]

-- Waking waiters does not touch the running task.
Released-IsValid :
    (q : ℕ) (ts rest : List ℕ) {k k' : Kernel}
    → ((t : ℕ) → t ∈ ts → t ∈ k.waiting q)
    → IsValid k
    → Placed k'
    → Released q ts rest k k'
    → IsValid k'
Released-IsValid q ts rest {k} {k'} sub v p r =
    let out : has k.current ts ≡ false =
      ground (arith, sub k.current, v.placed.waits q k.current, v.runs) in
    record {
      placed = p;
      runs = rw (r.running, r.pcbs k.current, out) v.runs;
      taken = rw (r.running, r.ready, has-append k.current k.ready_queue ts, out, v.taken);
    }

pub unblock_one-IsValid : (q : ℕ) (k : Kernel) → IsValid k → IsValid (unblock_one q k).1
unblock_one-IsValid q k v = go (k.waiting q) refl
  where
    go : (ts : List ℕ) → k.waiting q ≡ ts → IsValid (unblock_one q k).1
    go [] e = rw (unblock_one_nil q k e) v
    go (t ∷ ts) e =
        Released-IsValid q (t ∷ []) ts (λ s i. rw e (ground arith)) v
          (unblock_one-Placed q k v.placed) (unblock_one-Released q t ts k e)

pub unblock_all-IsValid : (q : ℕ) (k : Kernel) → IsValid k → IsValid (unblock_all q k)
unfolding unblock_all
unblock_all-IsValid q k v =
    Released-IsValid q (k.waiting q) [] (λ t i. i) v
      (unblock_loop-Placed (length (k.waiting q)) q k v.placed)
      (unblock_loop-Released (k.waiting q) q k refl)
