-- ===== src/ThreadPool/Tasks.antt =====
-- Where the tasks of threadPool.cpp are: still to add, in the queue, in a worker's hands, or called.
use mathlib.Core.List.{flatten}
use mathlib.Core.Logic.{ite}
use cpp_tiny_lab.Base.{
  ℕ, zero, suc, ◌+◌, ◌≤◌, ◌≡◌, refl, sym, ◌∙◌, false, none, some, List, [], ◌∷◌, ◌++◌, map, inl,
  inr, List-cases, arith, get_elem?, sum_by, sum_by-set, sum_by-append, sum_by-replicate, sum_by-ge,
  All, Option-cases, ◌≢◌, ℕ_discrete,
}
use cpp_tiny_lab.ThreadPool.Steps.{Kept, Reach-kept}
use cpp_tiny_lab.ThreadPool.{
  MyTask, ThreadPool, next, WorkerPc, test, take_front, unlock_run, post_empty, run, pop_queue,
  call_task, thread_process, takes, runs, pushes, AdderPc, calls, wait_empty, lock_tasks, recheck,
  push, unlock_return, unlock_post, post_full, add_task, DestroyerPc, serving, closing, closed,
  destory_thread_pool, System, init, Reach,
}

-- The task that a worker has taken from the queue and not yet called.
abbrev pub in_hand : WorkerPc → List MyTask
in_hand (unlock_run t) = t ∷ []
in_hand (post_empty t) = t ∷ []
in_hand (run t) = t ∷ []
in_hand _ = []

-- The tasks that an adder has still to push.
abbrev pub pending : AdderPc → List MyTask
pending (calls ts) = ts
pending (wait_empty t ts) = t ∷ ts
pending (lock_tasks t ts) = t ∷ ts
pending (recheck t ts) = t ∷ ts
pending (push t ts) = t ∷ ts
pending (unlock_return ts) = ts
pending (unlock_post ts) = ts
pending (post_full ts) = ts

module _ (f : MyTask → ℕ) where
  abbrev pub hand_weight : WorkerPc → ℕ
  hand_weight p = sum_by f (in_hand p)

  abbrev pub pending_weight : AdderPc → ℕ
  pending_weight p = sum_by f (pending p)

  -- The weight of all tasks, wherever they are.
  abbrev pub everywhere : System → ℕ
  everywhere s =
      sum_by pending_weight s.adders
      + sum_by f s.pool.task_queue
      + sum_by hand_weight s.workers
      + sum_by f s.called

  pub record Located (lists : List (List MyTask)) (s : System) : Type 0 where
    pub none_gained : everywhere s ≤ sum_by f (flatten lists)
    pub none_lost : s.pool.shufdown ≡ false → everywhere s ≡ sum_by f (flatten lists)

  module _ (lists : List (List MyTask)) (s : System) (inv : Located lists s) where
    open inv use {none_gained, none_lost}

    worker-Located :
        (p q : WorkerPc) (pool : ThreadPool) (ws : List WorkerPc)
        → sum_by hand_weight ws + hand_weight p ≡ sum_by hand_weight s.workers + hand_weight q
        → thread_process s.pool p ≡ next (pool, q)
        → Located lists (record s {
          pool = pool;
          workers = ws;
          taken = s.taken ++ takes p s.pool;
          called = s.called ++ runs p;
        })
    unfolding thread_process pop_queue call_task
    worker-Located take_front q pool ws m e = elim (List-cases s.pool.task_queue) [
      | inl h ↦ ground arith
      | inr (t, ts, h) ↦ ground (arith, sum_by-append f s.called [])
    ]
    worker-Located (run t) q pool ws m e = ground (arith, sum_by-append f s.called (t ∷ []))
    worker-Located p q pool ws m e = ground (arith, sum_by-append f s.called [])

    adder-Located :
        (p q : AdderPc) (pool : ThreadPool) (ps : List AdderPc)
        → sum_by pending_weight ps + pending_weight p
          ≡ sum_by pending_weight s.adders + pending_weight q
        → add_task s.pool p ≡ next (pool, q)
        → Located lists (record s { pool = pool; adders = ps; pushed = s.pushed ++ pushes p })
    unfolding add_task
    adder-Located (calls []) q pool ps m e = cc
    adder-Located (calls (t ∷ ts)) q pool ps m e = ground arith
    adder-Located (push t ts) q pool ps m e =
        ground (arith, sum_by-append f s.pool.task_queue (t ∷ []))
    adder-Located p q pool ps m e = ground arith

    destroyer-Located :
        (d q : DestroyerPc) (pool : ThreadPool)
        → destory_thread_pool s.pool d ≡ next (pool, q)
        → Located lists (record s { pool = pool; destroyer = q })
    unfolding destory_thread_pool
    destroyer-Located serving q pool e = ground arith
    destroyer-Located (closing zero) q pool e = ground arith
    destroyer-Located (closing (suc k)) q pool e = ground arith
    destroyer-Located closed q pool e = cc

  Located-kept : (lists : List (List MyTask)) → Kept (Located lists)
  Located-kept lists = record {
    by_worker = λ s i p q pool inv at e.
        worker-Located lists s inv p q pool _ (sum_by-set hand_weight s.workers i p q at) e;
    by_adder = λ s i p q pool inv at e.
        adder-Located lists s inv p q pool _ (sum_by-set pending_weight s.adders i p q at) e;
    by_destroyer = λ s d q pool inv h e. destroyer-Located lists s inv d q pool e;
  }

  pending-calls :
      (lists : List (List MyTask))
      → sum_by pending_weight (map calls lists) ≡ sum_by f (flatten lists)
  unfolding flatten
  pending-calls [] = refl
  pending-calls (l ∷ ls) = omega (arith, pending-calls ls, sum_by-append f l (flatten ls))

  init-everywhere :
      (n m : ℕ) (lists : List (List MyTask))
      → everywhere (init n m lists) ≡ sum_by f (flatten lists)
  unfolding init
  init-everywhere n m lists =
      omega (arith, pending-calls lists, sum_by-replicate hand_weight n test refl)

  pub Reach-Located :
      {n m : ℕ} {lists : List (List MyTask)} {s : System} → Reach n m lists s → Located lists s
  unfolding init
  Reach-Located {n} {m} {lists} r =
      Reach-kept (Located-kept lists)
        (record {
          none_gained = omega (arith, init-everywhere n m lists);
          none_lost = λ _. init-everywhere n m lists;
        })
        r

-- The tasks whose function pointer is NULL.
abbrev pub HasFun : MyTask → Type 0
HasFun t = t.fun ≢ none

abbrev null_weight : MyTask → ℕ
null_weight t = elim t.fun [ none ↦ 1 | some g ↦ 0 ]

null_weight-list : (ts : List MyTask) → All HasFun ts → sum_by null_weight ts ≡ 0
null_weight-list [] h = refl
null_weight-list (t ∷ ts) h = elim (Option-cases t.fun) [
  | inl e ↦ absurd (h.0 e)
  | inr (g, e) ↦ ground (arith, null_weight-list ts h.1)
]

null_weight-lists :
    (lists : List (List MyTask)) → All (All HasFun) lists → sum_by null_weight (flatten lists) ≡ 0
unfolding flatten
null_weight-lists [] h = refl
null_weight-lists (l ∷ ls) h = omega (
  arith,
  sum_by-append null_weight l (flatten ls),
  null_weight-list l h.0,
  null_weight-lists ls h.1,
)

-- A worker that is about to call a task has one with a function.
pub run-HasFun :
    {n m : ℕ} {lists : List (List MyTask)} {s : System}
    → All (All HasFun) lists
    → Reach n m lists s
    → (i : ℕ) (t : MyTask) → get_elem? s.workers i ≡ some (run t)
    → HasFun t
run-HasFun {lists} {s} h r i t at e = absurd (
    ground (
      arith,
      (Reach-Located null_weight r).none_gained,
      null_weight-lists lists h,
      sum_by-ge (hand_weight null_weight) s.workers i (run t) at,
    ))

-- How often a task stands in a list.
pub MyTask-discrete : Discrete MyTask
MyTask-discrete = hlevel ℕ_discrete

abbrev pub is_task : MyTask → MyTask → ℕ
is_task t u = ite (MyTask-discrete t u) 1 0

abbrev pub count : MyTask → List MyTask → ℕ
count t ts = sum_by (is_task t) ts

sum_by-flat_map :
    (f : MyTask → ℕ) (ws : List WorkerPc)
    → sum_by (hand_weight f) ws ≡ sum_by f (flatten (map in_hand ws))
unfolding flatten
sum_by-flat_map f [] = refl
sum_by-flat_map f (w ∷ ws) =
    omega (arith, sum_by-append f (in_hand w) (flatten (map in_hand ws)), sum_by-flat_map f ws)

sum_by-pending :
    (f : MyTask → ℕ) (ps : List AdderPc)
    → sum_by (pending_weight f) ps ≡ sum_by f (flatten (map pending ps))
unfolding flatten
sum_by-pending f [] = refl
sum_by-pending f (p ∷ ps) =
    omega (arith, sum_by-append f (pending p) (flatten (map pending ps)), sum_by-pending f ps)

-- How often a task is still to push, in the queue, in a worker's hands or called.
abbrev pub occurrences : MyTask → System → ℕ
occurrences t s =
    count t (flatten (map pending s.adders))
    + count t s.pool.task_queue
    + count t (flatten (map in_hand s.workers))
    + count t s.called

pub everywhere-occurrences : (t : MyTask) (s : System) → everywhere (is_task t) s ≡ occurrences t s
everywhere-occurrences t s =
    omega (arith, sum_by-pending (is_task t) s.adders, sum_by-flat_map (is_task t) s.workers)

-- Until the pool is shut down every task that was to be added is, as often as it was to be added,
-- still to push, in the queue, in a worker's hands, or called.
pub occurrences-eq-added :
    {n m : ℕ} {lists : List (List MyTask)} {s : System}
    → Reach n m lists s
    → s.pool.shufdown ≡ false
    → (t : MyTask) → occurrences t s ≡ count t (flatten lists)
occurrences-eq-added {s} r h t =
    sym (everywhere-occurrences t s) ∙ (Reach-Located (is_task t) r).none_lost h

-- Nor is a task ever called more often than it was to be added, after a shutdown included.
pub called-le-added :
    {n m : ℕ} {lists : List (List MyTask)} {s : System}
    → Reach n m lists s
    → (t : MyTask) → count t s.called ≤ count t (flatten lists)
called-le-added {s} r t =
    omega (arith, (Reach-Located (is_task t) r).none_gained, everywhere-occurrences t s)
