-- ===== src/ThreadPool/Safety.antt =====
-- What the counts of threadPool.cpp give: exclusion, a bounded queue, no access to an empty queue.
use cpp_tiny_lab.Base.{
  ℕ, zero, ◌+◌, ◌≤◌, ◌≡◌, ◌≢◌, refl, ap, ◌∙◌, false, none, some, List, [], ◌∷◌, inl, inr,
  List-cases, Option-cases, arith, length, get_elem?, sum_by, sum_by-ge, sum_by-two, All,
}
use cpp_tiny_lab.ThreadPool.Steps.{Kept, Reach-kept}
use cpp_tiny_lab.ThreadPool.Invariant.{Inv, Reach-Inv, holds, adder_holds, is_taking}
use cpp_tiny_lab.ThreadPool.Tasks.{HasFun, run-HasFun}
use cpp_tiny_lab.ThreadPool.{
  MyTask, ThreadPool, Outcome, next, fault, WorkerPc, test, take_front, run, pop_queue, call_task,
  thread_process, after_worker, after_adder, after_destroyer, AdderPc, calls, add_task, DestroyerPc,
  closing, destory_thread_pool, System, init, Thread, worker, adder, destroyer, step_worker,
  step_adder, step, Reach,
}

-- The sizes given to the constructor never change.
pub record HasSizes (n m : ℕ) (s : System) : Type 0 where
  pub threads : s.pool.max_thread_nums ≡ n
  pub tasks : s.pool.max_task_nums ≡ m

worker-HasSizes :
    {n m : ℕ} (s : System) (p q : WorkerPc) (pool : ThreadPool)
    → HasSizes n m s
    → thread_process s.pool p ≡ next (pool, q)
    → (pool.max_thread_nums ≡ n) × (pool.max_task_nums ≡ m)
unfolding thread_process pop_queue call_task
worker-HasSizes s test q pool h e = ground arith
worker-HasSizes s p q pool h e = ground arith

adder-HasSizes :
    {n m : ℕ} (s : System) (p q : AdderPc) (pool : ThreadPool)
    → HasSizes n m s
    → add_task s.pool p ≡ next (pool, q)
    → (pool.max_thread_nums ≡ n) × (pool.max_task_nums ≡ m)
unfolding add_task
adder-HasSizes s (calls []) q pool h e = cc
adder-HasSizes s (calls (t ∷ ts)) q pool h e = ground arith
adder-HasSizes s p q pool h e = ground arith

destroyer-HasSizes :
    {n m : ℕ} (s : System) (d q : DestroyerPc) (pool : ThreadPool)
    → HasSizes n m s
    → destory_thread_pool s.pool d ≡ next (pool, q)
    → (pool.max_thread_nums ≡ n) × (pool.max_task_nums ≡ m)
unfolding destory_thread_pool
destroyer-HasSizes s (closing zero) q pool h e = ground arith
destroyer-HasSizes s d q pool h e = ground arith

HasSizes-kept : (n m : ℕ) → Kept (HasSizes n m)
HasSizes-kept n m = record {
  by_worker = λ s i p q pool inv at e.
      let (a, b) = worker-HasSizes s p q pool inv e in record { threads = a; tasks = b };
  by_adder = λ s i p q pool inv at e.
      let (a, b) = adder-HasSizes s p q pool inv e in record { threads = a; tasks = b };
  by_destroyer = λ s d q pool inv h e.
      let (a, b) = destroyer-HasSizes s d q pool inv e in record { threads = a; tasks = b };
}

pub Reach-HasSizes :
    {n m : ℕ} {lists : List (List MyTask)} {s : System} → Reach n m lists s → HasSizes n m s
unfolding init
Reach-HasSizes {n} {m} r =
    Reach-kept (HasSizes-kept n m) (record { threads = refl; tasks = refl }) r

-- The queue never holds more than `maxTaskNums` tasks.
pub task_queue-le-max :
    {n m : ℕ} {lists : List (List MyTask)} {s : System}
    → Reach n m lists s
    → length s.pool.task_queue ≤ m
task_queue-le-max r = omega (arith, (Reach-Inv r).slots, (Reach-HasSizes r).tasks)

-- 1 for a thread that stands between lock and unlock.
abbrev pub critical : System → Thread → ℕ
critical s (worker i) = elim (get_elem? s.workers i) [ none ↦ 0 | some p ↦ holds p ]
critical s (adder i) = elim (get_elem? s.adders i) [ none ↦ 0 | some p ↦ adder_holds p ]
critical s destroyer = 0

workers_exclude :
    (s : System) (i j : ℕ) → Inv s → i ≢ j → critical s (worker i) + critical s (worker j) ≤ 1
workers_exclude s i j inv ne = elim (Option-cases (get_elem? s.workers i)) [
  | inl a ↦ elim (Option-cases (get_elem? s.workers j)) [
    | inl b ↦ ground arith
    | inr (q, b) ↦ ground (arith, inv.mutex, sum_by-ge holds s.workers j q b)
  ]
  | inr (p, a) ↦ elim (Option-cases (get_elem? s.workers j)) [
    | inl b ↦ ground (arith, inv.mutex, sum_by-ge holds s.workers i p a)
    | inr (q, b) ↦ ground (arith, inv.mutex, sum_by-two holds s.workers i j p q ne a b)
  ]
]

adders_exclude :
    (s : System) (i j : ℕ) → Inv s → i ≢ j → critical s (adder i) + critical s (adder j) ≤ 1
adders_exclude s i j inv ne = elim (Option-cases (get_elem? s.adders i)) [
  | inl a ↦ elim (Option-cases (get_elem? s.adders j)) [
    | inl b ↦ ground arith
    | inr (q, b) ↦ ground (arith, inv.mutex, sum_by-ge adder_holds s.adders j q b)
  ]
  | inr (p, a) ↦ elim (Option-cases (get_elem? s.adders j)) [
    | inl b ↦ ground (arith, inv.mutex, sum_by-ge adder_holds s.adders i p a)
    | inr (q, b) ↦ ground (arith, inv.mutex, sum_by-two adder_holds s.adders i j p q ne a b)
  ]
]

critical_worker-le : (s : System) (i : ℕ) → critical s (worker i) ≤ sum_by holds s.workers
critical_worker-le s i = elim (Option-cases (get_elem? s.workers i)) [
  | inl a ↦ ground arith
  | inr (p, a) ↦ ground (arith, sum_by-ge holds s.workers i p a)
]

critical_adder-le : (s : System) (i : ℕ) → critical s (adder i) ≤ sum_by adder_holds s.adders
critical_adder-le s i = elim (Option-cases (get_elem? s.adders i)) [
  | inl a ↦ ground arith
  | inr (p, a) ↦ ground (arith, sum_by-ge adder_holds s.adders i p a)
]

-- Two different threads are never both between `pthread_mutex_lock` and `pthread_mutex_unlock`.
pub mutual_exclusion :
    {n m : ℕ} {lists : List (List MyTask)} {s : System}
    → Reach n m lists s
    → (c d : Thread) → c ≢ d
    → critical s c + critical s d ≤ 1
mutual_exclusion {s} r (worker i) (worker j) ne =
    workers_exclude s i j (Reach-Inv r) (λ e. ne (ap worker e))
mutual_exclusion {s} r (adder i) (adder j) ne =
    adders_exclude s i j (Reach-Inv r) (λ e. ne (ap adder e))
mutual_exclusion {s} r (worker i) (adder j) ne =
    ground (arith, (Reach-Inv r).mutex, critical_worker-le s i, critical_adder-le s j)
mutual_exclusion {s} r (adder i) (worker j) ne =
    ground (arith, (Reach-Inv r).mutex, critical_worker-le s j, critical_adder-le s i)
mutual_exclusion {s} r (worker i) destroyer ne =
    ground (arith, (Reach-Inv r).mutex, critical_worker-le s i)
mutual_exclusion {s} r (adder i) destroyer ne =
    ground (arith, (Reach-Inv r).mutex, critical_adder-le s i)
mutual_exclusion {s} r destroyer (worker i) ne =
    ground (arith, (Reach-Inv r).mutex, critical_worker-le s i)
mutual_exclusion {s} r destroyer (adder i) ne =
    ground (arith, (Reach-Inv r).mutex, critical_adder-le s i)
mutual_exclusion r destroyer destroyer ne = absurd (ne refl)

thread_process-fault :
    (s : System) (i : ℕ) (p : WorkerPc)
    → Inv s
    → s.pool.destroyed ≡ false
    → get_elem? s.workers i ≡ some p
    → ((t : MyTask) → p ≡ run t → HasFun t)
    → thread_process s.pool p ≢ fault
unfolding thread_process pop_queue call_task
thread_process-fault s i take_front inv d at h e = elim (List-cases s.pool.task_queue) [
  | inl n ↦ ground (arith, inv.taking, sum_by-ge is_taking s.workers i take_front at)
  | inr (t, ts, n) ↦ ground arith
]
thread_process-fault s i (run t) inv d at h e = elim (Option-cases t.fun) [
  | inl n ↦ h t refl n
  | inr (g, n) ↦ ground arith
]
thread_process-fault s i p inv d at h e = ground arith

add_task-fault : (p : ThreadPool) (a : AdderPc) → p.destroyed ≡ false → add_task p a ≢ fault
unfolding add_task
add_task-fault p (calls []) d e = cc
add_task-fault p (calls (t ∷ ts)) d e = cc
add_task-fault p a d e = ground arith

destory_thread_pool-fault : (p : ThreadPool) (d : DestroyerPc) → destory_thread_pool p d ≢ fault
unfolding destory_thread_pool
destory_thread_pool-fault p (closing zero) e = cc
destory_thread_pool-fault p d e = cc

after_worker-fault :
    (s : System) (i : ℕ) (p : WorkerPc) (o : Outcome (ThreadPool × WorkerPc))
    → o ≢ fault
    → after_worker s i p o ≢ fault
after_worker-fault s i p fault h e = h refl
after_worker-fault s i p o h e = cc

after_adder-fault :
    (s : System) (i : ℕ) (p : AdderPc) (o : Outcome (ThreadPool × AdderPc))
    → o ≢ fault
    → after_adder s i p o ≢ fault
after_adder-fault s i p fault h e = h refl
after_adder-fault s i p o h e = cc

after_destroyer-fault :
    (s : System) (o : Outcome (ThreadPool × DestroyerPc)) → o ≢ fault → after_destroyer s o ≢ fault
after_destroyer-fault s fault h e = h refl
after_destroyer-fault s o h e = cc

-- If each task to add has a function, then until the semaphores are destroyed no step of any thread
-- is undefined: no worker takes the front of an empty queue and none calls through NULL.
pub step-ne-fault :
    {n m : ℕ} {lists : List (List MyTask)} {s : System}
    → All (All HasFun) lists
    → Reach n m lists s
    → s.pool.destroyed ≡ false
    → (c : Thread) → step s c ≢ fault
unfolding step step_worker step_adder
step-ne-fault {s} h r d (worker i) e = elim (Option-cases (get_elem? s.workers i)) [
  | inl gone ↦ ground arith
  | inr (p, at) ↦
      after_worker-fault s i p (thread_process s.pool p)
        (thread_process-fault s i p (Reach-Inv r) d at
          (λ t pe. run-HasFun h r i t (at ∙ ap some pe)))
        (rw at at e)
]
step-ne-fault {s} h r d (adder i) e = elim (Option-cases (get_elem? s.adders i)) [
  | inl gone ↦ ground arith
  | inr (p, at) ↦
      after_adder-fault s i p (add_task s.pool p) (add_task-fault s.pool p d) (rw at at e)
]
step-ne-fault {s} h r d destroyer e =
    after_destroyer-fault s _ (destory_thread_pool-fault s.pool s.destroyer) e
