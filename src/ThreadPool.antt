-- ===== src/ThreadPool.antt =====
-- ThreadPool/src/threadPool.cpp and ThreadPool/include/threadPool.h: a task queue bounded by two
-- semaphores under one mutex. One step of a thread is one access to what the threads share.
pub mod Steps
pub mod Invariant
pub mod History
pub mod Tasks
pub mod Safety
pub mod Stuck
pub mod Progress
pub mod Shutdown
pub mod Main
mod Tests
use cpp_tiny_lab.Base.{
  ℕ, zero, suc, ◌+◌, ◌≡◌, Bool, true, false, Option, none, some, List, [], ◌∷◌, ◌++◌, if◌then◌else◌,
  get_elem?, set, replicate, take, map,
}

-- `class myTask`; a pointer is `none` where it is NULL, as both are by default.
pub record MyTask : Type 0 where
  pub arg : Option ℕ
  pub fun : Option ℕ

-- `class ThreadPool`. The counters are the values of the semaphores, `locked` is the mutex, and
-- `destroyed` is set once the semaphores and the mutex have been destroyed.
pub record ThreadPool : Type 0 where
  pub shufdown : Bool
  pub max_task_nums : ℕ
  pub max_thread_nums : ℕ
  pub task_queue : List MyTask
  pub full_sem : ℕ
  pub empty_sem : ℕ
  pub locked : Bool
  pub destroyed : Bool

-- What becomes of a thread that is scheduled: it moves, it waits, it has ended, or its next access
-- is undefined behaviour.
pub data Outcome {ℓ} (A : Type ℓ) : Type ℓ where
  next : A → Outcome A
  blocked stopped fault : Outcome A

pub next-injective {ℓ} : {A : Type ℓ} {a b : A} → next a ≡ next b → a ≡ b
next-injective h = cc

pub make_pool : ℕ → ℕ → ThreadPool
make_pool max_thread_nums max_task_nums = record {
  shufdown = false;
  max_task_nums = max_task_nums;
  max_thread_nums = max_thread_nums;
  task_queue = [];
  full_sem = 0;
  empty_sem = max_task_nums;
  locked = false;
  destroyed = false;
}

abbrev wait_sem {ℓ} : {A : Type ℓ} → ℕ → (ℕ → A) → Outcome A
wait_sem zero k = blocked
wait_sem (suc n) k = next (k n)

abbrev lock_mutex {ℓ} : {A : Type ℓ} → Bool → A → Outcome A
lock_mutex true a = blocked
lock_mutex false a = next a

-- An access to a semaphore or to the mutex, which must not have been destroyed.
abbrev alive {ℓ} : {A : Type ℓ} → ThreadPool → Outcome A → Outcome A
alive p o = if p.destroyed then fault else o

-- Where a thread in `threadProcess` stands.
pub data WorkerPc : Type 0 where
  test wait_full lock_queue check unlock_exit take_front : WorkerPc
  unlock_run post_empty run : MyTask → WorkerPc
  exited : WorkerPc

-- `front` and `pop`, of which the first is undefined on an empty queue.
pop_queue : ThreadPool → List MyTask → Outcome (ThreadPool × WorkerPc)
pop_queue p [] = fault
pop_queue p (t ∷ rest) = next (record p { task_queue = rest }, unlock_run t)

-- `task.fun(task.arg)`; a call through NULL is undefined.
call_task : ThreadPool → Option ℕ → Outcome (ThreadPool × WorkerPc)
call_task p none = fault
call_task p (some f) = next (p, test)

pub thread_process : ThreadPool → WorkerPc → Outcome (ThreadPool × WorkerPc)
unfolding pop_queue call_task
thread_process p test = next (p, (if p.shufdown then exited else wait_full))
thread_process p wait_full =
    alive p (wait_sem p.full_sem (λ n. (record p { full_sem = n }, lock_queue)))
thread_process p lock_queue = alive p (lock_mutex p.locked (record p { locked = true }, check))
thread_process p check = next (p, (if p.shufdown then unlock_exit else take_front))
thread_process p unlock_exit = alive p (next (record p { locked = false }, exited))
thread_process p take_front = pop_queue p p.task_queue
thread_process p (unlock_run t) = alive p (next (record p { locked = false }, post_empty t))
thread_process p (post_empty t) = alive p (next (record p { empty_sem = p.empty_sem + 1 }, run t))
thread_process p (run t) = call_task p t.fun
thread_process p exited = stopped

-- Where a thread stands that calls `addTask` for each task of a list in turn.
pub data AdderPc : Type 0 where
  calls : List MyTask → AdderPc
  wait_empty lock_tasks recheck push : MyTask → List MyTask → AdderPc
  unlock_return unlock_post post_full : List MyTask → AdderPc

pub add_task : ThreadPool → AdderPc → Outcome (ThreadPool × AdderPc)
add_task p (calls []) = stopped
add_task p (calls (t ∷ ts)) = next (p, (if p.shufdown then calls ts else wait_empty t ts))
add_task p (wait_empty t ts) =
    alive p (wait_sem p.empty_sem (λ n. (record p { empty_sem = n }, lock_tasks t ts)))
add_task p (lock_tasks t ts) =
    alive p (lock_mutex p.locked (record p { locked = true }, recheck t ts))
add_task p (recheck t ts) = next (p, (if p.shufdown then unlock_return ts else push t ts))
add_task p (unlock_return ts) = alive p (next (record p { locked = false }, calls ts))
add_task p (push t ts) = next (record p { task_queue = p.task_queue ++ t ∷ [] }, unlock_post ts)
add_task p (unlock_post ts) = alive p (next (record p { locked = false }, post_full ts))
add_task p (post_full ts) = alive p (next (record p { full_sem = p.full_sem + 1 }, calls ts))

-- Where the thread stands that calls `destoryThreadPool`; `closing k` has `k` posts to make.
pub data DestroyerPc : Type 0 where
  serving : DestroyerPc
  closing : ℕ → DestroyerPc
  closed : DestroyerPc

pub destory_thread_pool : ThreadPool → DestroyerPc → Outcome (ThreadPool × DestroyerPc)
destory_thread_pool p serving = next (record p { shufdown = true }, closing p.max_thread_nums)
destory_thread_pool p (closing zero) = next (record p { destroyed = true }, closed)
destory_thread_pool p (closing (suc k)) = next (record p { full_sem = p.full_sem + 1 }, closing k)
destory_thread_pool p closed = stopped

-- The pool with its threads. The last three fields are history: the tasks in the order in which
-- they were pushed, taken from the queue and called.
pub record System : Type 0 where
  pub pool : ThreadPool
  pub workers : List WorkerPc
  pub adders : List AdderPc
  pub destroyer : DestroyerPc
  pub pushed : List MyTask
  pub taken : List MyTask
  pub called : List MyTask

-- The constructor, with the threads that it creates, and the lists of tasks that will be added.
pub init : ℕ → ℕ → List (List MyTask) → System
unfolding make_pool
init max_thread_nums max_task_nums lists = record {
  pool = make_pool max_thread_nums max_task_nums;
  workers = replicate max_thread_nums test;
  adders = map calls lists;
  destroyer = serving;
  pushed = [];
  taken = [];
  called = [];
}

-- The task that a step from this point pushes, calls or takes.
abbrev pub pushes : AdderPc → List MyTask
pushes (push t ts) = t ∷ []
pushes _ = []

abbrev pub runs : WorkerPc → List MyTask
runs (run t) = t ∷ []
runs _ = []

abbrev pub takes : WorkerPc → ThreadPool → List MyTask
takes take_front p = take 1 p.task_queue
takes _ p = []

abbrev pub after_worker : System → ℕ → WorkerPc → Outcome (ThreadPool × WorkerPc) → Outcome System
after_worker s i pc (next (p, pc')) = next (record s {
  pool = p;
  workers = set s.workers i pc';
  taken = s.taken ++ takes pc s.pool;
  called = s.called ++ runs pc;
})
after_worker s i pc blocked = blocked
after_worker s i pc stopped = stopped
after_worker s i pc fault = fault

abbrev pub after_adder : System → ℕ → AdderPc → Outcome (ThreadPool × AdderPc) → Outcome System
after_adder s i pc (next (p, pc')) =
    next (record s { pool = p; adders = set s.adders i pc'; pushed = s.pushed ++ pushes pc })
after_adder s i pc blocked = blocked
after_adder s i pc stopped = stopped
after_adder s i pc fault = fault

abbrev pub after_destroyer : System → Outcome (ThreadPool × DestroyerPc) → Outcome System
after_destroyer s (next (p, pc')) = next (record s { pool = p; destroyer = pc' })
after_destroyer s blocked = blocked
after_destroyer s stopped = stopped
after_destroyer s fault = fault

-- The scheduler's choice of the thread that makes the next step.
pub data Thread : Type 0 where
  worker adder : ℕ → Thread
  destroyer : Thread

step_worker : System → ℕ → Option WorkerPc → Outcome System
step_worker s i none = stopped
step_worker s i (some pc) = after_worker s i pc (thread_process s.pool pc)

step_adder : System → ℕ → Option AdderPc → Outcome System
step_adder s i none = stopped
step_adder s i (some pc) = after_adder s i pc (add_task s.pool pc)

pub step : System → Thread → Outcome System
unfolding step_worker step_adder
step s (worker i) = step_worker s i (get_elem? s.workers i)
step s (adder i) = step_adder s i (get_elem? s.adders i)
step s destroyer = after_destroyer s (destory_thread_pool s.pool s.destroyer)

-- The states that a pool of the given sizes can come to.
pub data Reach (threads tasks : ℕ) (lists : List (List MyTask)) : System → Type 0 where
  start : Reach threads tasks lists (init threads tasks lists)
  later :
      {s t : System} (c : Thread)
      → Reach threads tasks lists s
      → step s c ≡ next t
      → Reach threads tasks lists t
