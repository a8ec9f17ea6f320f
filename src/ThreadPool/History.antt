-- ===== src/ThreadPool/History.antt =====
-- Where the tasks of threadPool.cpp are: still to add, in the queue, in a worker's hands, or called.
use cpp_tiny_lab.Base.{
  ℕ, zero, suc, ◌≡◌, refl, sym, subst, some-injective, some, get_elem?, set, Option-cases, List, [],
  ◌∷◌, ◌++◌, inl, inr, List-cases, arith, append_assoc, append-nil,
}
use cpp_tiny_lab.ThreadPool.Steps.{Kept, Reach-kept}
use cpp_tiny_lab.ThreadPool.Tasks.{in_hand}
use cpp_tiny_lab.ThreadPool.{
  MyTask, ThreadPool, next, WorkerPc, test, take_front, run, runs, pop_queue, call_task,
  thread_process, takes, pushes, AdderPc, calls, push, add_task, destory_thread_pool, System, init,
  Reach,
}

-- The queue is what was pushed and has not been taken, in the order of the pushes.
abbrev pub IsFifo : System → Type 0
IsFifo s = s.pushed ≡ s.taken ++ s.pool.task_queue

taken-IsFifo :
    (s : System) (p q : WorkerPc) (pool : ThreadPool)
    → IsFifo s
    → thread_process s.pool p ≡ next (pool, q)
    → s.pushed ≡ (s.taken ++ takes p s.pool) ++ pool.task_queue
unfolding thread_process pop_queue call_task
taken-IsFifo s take_front q pool inv e = elim (List-cases s.pool.task_queue) [
  | inl h ↦ ground arith
  | inr (t, ts, h) ↦ ground (arith, append_assoc s.taken (t ∷ []) ts)
]
taken-IsFifo s p q pool inv e = ground (arith, append-nil s.taken)

pushed-IsFifo :
    (s : System) (p q : AdderPc) (pool : ThreadPool)
    → IsFifo s
    → add_task s.pool p ≡ next (pool, q)
    → s.pushed ++ pushes p ≡ s.taken ++ pool.task_queue
unfolding add_task
pushed-IsFifo s (push t ts) q pool inv e =
    ground (arith, append_assoc s.taken s.pool.task_queue (t ∷ []))
pushed-IsFifo s (calls []) q pool inv e = cc
pushed-IsFifo s p q pool inv e = ground (arith, append-nil s.pushed)

IsFifo-kept : Kept IsFifo
unfolding destory_thread_pool
IsFifo-kept = record {
  by_worker = λ s i p q pool inv at e. taken-IsFifo s p q pool inv e;
  by_adder = λ s i p q pool inv at e. pushed-IsFifo s p q pool inv e;
  by_destroyer = λ s d q pool inv h e. ground arith;
}

-- Tasks leave the queue in the order in which they were pushed, none is skipped and none is
-- taken twice: what was pushed is what was taken, followed by the queue.
pub Reach-IsFifo :
    {n m : ℕ} {lists : List (List MyTask)} {s : System}
    → Reach n m lists s
    → s.pushed ≡ s.taken ++ s.pool.task_queue
unfolding init
Reach-IsFifo r = Reach-kept IsFifo-kept refl r

-- With one worker: what was pushed is what was called, what the worker has in its hands, and the
-- queue.
abbrev IsInOrder : System → Type 0
IsInOrder s =
    (p : WorkerPc) × (s.workers ≡ p ∷ [])
    × (s.pushed ≡ s.called ++ (in_hand p ++ s.pool.task_queue))

worker-in_order :
    (pushed called : List MyTask) (pool pool' : ThreadPool) (p q : WorkerPc)
    → pushed ≡ called ++ (in_hand p ++ pool.task_queue)
    → thread_process pool p ≡ next (pool', q)
    → pushed ≡ (called ++ runs p) ++ (in_hand q ++ pool'.task_queue)
unfolding thread_process pop_queue call_task
worker-in_order pushed called pool pool' take_front q h e = elim (List-cases pool.task_queue) [
  | inl f ↦ ground arith
  | inr (t, ts, f) ↦ ground (arith, append-nil called)
]
worker-in_order pushed called pool pool' (run t) q h e = elim (Option-cases t.fun) [
  | inl f ↦ ground arith
  | inr (g, f) ↦ ground (arith, append_assoc called (t ∷ []) pool.task_queue)
]
worker-in_order pushed called pool pool' p q h e = ground (arith, append-nil called)

adder-in_order :
    (s : System) (hand : List MyTask) (p q : AdderPc) (pool : ThreadPool)
    → s.pushed ≡ s.called ++ (hand ++ s.pool.task_queue)
    → add_task s.pool p ≡ next (pool, q)
    → s.pushed ++ pushes p ≡ s.called ++ (hand ++ pool.task_queue)
unfolding add_task
adder-in_order s hand (push t ts) q pool inv e = ground (
  arith,
  append_assoc s.called (hand ++ s.pool.task_queue) (t ∷ []),
  append_assoc hand s.pool.task_queue (t ∷ []),
)
adder-in_order s hand (calls []) q pool inv e = cc
adder-in_order s hand p q pool inv e = ground (arith, append-nil s.pushed)

one_worker :
    (p0 p q : WorkerPc) (i : ℕ)
    → get_elem? (p0 ∷ []) i ≡ some p
    → (p0 ≡ p) × (set (p0 ∷ []) i q ≡ q ∷ [])
one_worker p0 p q zero at = (some-injective _ _ at, refl)
one_worker p0 p q (suc i) at = cc

only_worker :
    (ws : List WorkerPc) (p0 p q : WorkerPc) (i : ℕ)
    → ws ≡ p0 ∷ []
    → get_elem? ws i ≡ some p
    → (p0 ≡ p) × (set ws i q ≡ q ∷ [])
only_worker ws p0 p q i e at =
    subst (λ ws. get_elem? ws i ≡ some p → (p0 ≡ p) × (set ws i q ≡ q ∷ [])) (sym e)
      (one_worker p0 p q i) at

IsInOrder-kept : Kept IsInOrder
unfolding destory_thread_pool
IsInOrder-kept = record {
  by_worker = λ s i p q pool inv at e.
      let (same, now) = only_worker s.workers inv.0 p q i inv.1 at in
      (
        q,
        now,
        worker-in_order s.pushed s.called s.pool pool p q
            (subst (λ w. s.pushed ≡ s.called ++ (in_hand w ++ s.pool.task_queue)) same inv.2) e,
      );
  by_adder =
      λ s i p q pool inv at e. (inv.0, inv.1, adder-in_order s (in_hand inv.0) p q pool inv.2 e);
  by_destroyer = λ s d q pool inv h e. (inv.0, inv.1, ground arith);
}

-- A pool with one worker calls the tasks in the order in which they were pushed, each once and none
-- skipped: what was pushed is what was called, then the task that the worker has taken and not yet
-- called, if there is one, then the queue.
pub called-in_order :
    {m : ℕ} {lists : List (List MyTask)} {s : System}
    → Reach 1 m lists s
    → (p : WorkerPc) × (s.workers ≡ p ∷ [])
      × (s.pushed ≡ s.called ++ (in_hand p ++ s.pool.task_queue))
unfolding init
called-in_order r = Reach-kept IsInOrder-kept (test, refl, refl) r
