-- ===== src/ThreadPool/Progress.antt =====
-- The threads of threadPool.cpp do not block each other for good.
use cpp_tiny_lab.Base.{
  ℕ, ◌<◌, ◌≡◌, ◌≢◌, ◌∙◌, true, false, some, List, [], ◌⊎◌, inl, inr, get_elem?, find_index,
  length-eq-zero, All, Bool-cases,
}
use cpp_tiny_lab.ThreadPool.Tasks.{HasFun}
use cpp_tiny_lab.ThreadPool.{
  MyTask, next, WorkerPc, thread_process, AdderPc, calls, add_task, System, Thread, worker, adder,
  destroyer, step_worker, step_adder, step, Reach,
}
use cpp_tiny_lab.ThreadPool.Stuck.{
  moves, moves-next, moves-after_worker, moves-after_adder, IsStuck, queue_empty, adders_done,
}

-- A task waits in the queue, or an adder has not finished.
abbrev pub HasWork : System → Type 0
HasWork s =
    (s.pool.task_queue ≢ [])
    ⊎ ((i : ℕ) × (a : AdderPc) × (get_elem? s.adders i ≡ some a) × (a ≢ calls []))

IsStuck-no_work :
    {n m : ℕ} {lists : List (List MyTask)} {s : System}
    → 0 < n
    → 0 < m
    → All (All HasFun) lists
    → Reach n m lists s
    → s.pool.shufdown ≡ false
    → HasWork s
    → ¬ IsStuck s
IsStuck-no_work {s} hn hm funs r h (inl w) stuck =
    w (length-eq-zero s.pool.task_queue (queue_empty r funs h stuck hn))
IsStuck-no_work hn hm funs r h (inr (i, a, at, w)) stuck =
    w (adders_done r funs h stuck hn hm i a at)

step_of_worker :
    (s : System) (i : ℕ) (p : WorkerPc)
    → get_elem? s.workers i ≡ some p
    → moves (thread_process s.pool p) ≡ true
    → (t : System) × (step s (worker i) ≡ next t)
unfolding step step_worker
step_of_worker s i p at h =
    moves-next _ (rw at (moves-after_worker s i p (thread_process s.pool p) ∙ h))

step_of_adder :
    (s : System) (i : ℕ) (a : AdderPc)
    → get_elem? s.adders i ≡ some a
    → moves (add_task s.pool a) ≡ true
    → (t : System) × (step s (adder i) ≡ next t)
unfolding step step_adder
step_of_adder s i a at h = moves-next _ (rw at (moves-after_adder s i a (add_task s.pool a) ∙ h))

-- With at least one worker and one slot, and with a function in each task, a pool that is open and
-- has work left is never deadlocked: some worker or adder can make a step.
pub no_deadlock :
    {n m : ℕ} {lists : List (List MyTask)} {s : System}
    → 0 < n
    → 0 < m
    → All (All HasFun) lists
    → Reach n m lists s
    → s.pool.shufdown ≡ false
    → HasWork s
    → (c : Thread) × (t : System) × (step s c ≡ next t) × (c ≢ destroyer)
no_deadlock {s} hn hm funs r h w =
    elim (find_index (λ p. moves (thread_process s.pool p)) s.workers) [
      | inl (i, p, at, go) ↦ let (t, e) = step_of_worker s i p at go in (worker i, t, e, λ x. cc)
      | inr ws ↦ elim (find_index (λ a. moves (add_task s.pool a)) s.adders) [
        | inl (i, a, at, go) ↦ let (t, e) = step_of_adder s i a at go in (adder i, t, e, λ x. cc)
        | inr ps ↦ absurd (IsStuck-no_work hn hm funs r h w (record { workers = ws; adders = ps }))
      ]
    ]

pub still-IsStuck :
    (s : System) → ((c : Thread) (t : System) → c ≢ destroyer → step s c ≢ next t) → IsStuck s
still-IsStuck s still = record {
  workers = λ i p at. elim (Bool-cases (moves (thread_process s.pool p))) [
    | inl go ↦ let (t, e) = step_of_worker s i p at go in absurd (still (worker i) t (λ x. cc) e)
    | inr waiting ↦ waiting
  ];
  adders = λ i a at. elim (Bool-cases (moves (add_task s.pool a))) [
    | inl go ↦ let (t, e) = step_of_adder s i a at go in absurd (still (adder i) t (λ x. cc) e)
    | inr waiting ↦ waiting
  ];
}
