-- ===== src/ThreadPool/Tests.antt =====
-- Runs of the pool of threadPool.cpp, and the theorems about it at states that they reach.
use mathlib.Core.List.{flatten, foldl}
use cpp_tiny_lab.Base.{
  ℕ, zero, suc, ◌+◌, ◌≤◌, ◌<◌, ◌≡◌, ◌≢◌, refl, true, none, some, List, [], ◌∷◌, ◌++◌, inl, arith,
  length, replicate, All,
}
use cpp_tiny_lab.ThreadPool.Invariant.{Inv, Reach-Inv}
use cpp_tiny_lab.ThreadPool.History.{called-in_order}
use cpp_tiny_lab.ThreadPool.Tasks.{HasFun, in_hand, count, occurrences, occurrences-eq-added}
use cpp_tiny_lab.ThreadPool.Safety.{task_queue-le-max, critical, mutual_exclusion, step-ne-fault}
use cpp_tiny_lab.ThreadPool.Progress.{no_deadlock}
use cpp_tiny_lab.Base.Int.{ℤ, pos, minus_one}
use cpp_tiny_lab.ThreadPool.Main.{fun_task, main_tasks, called-eq-requested}
use cpp_tiny_lab.ThreadPool.Shutdown.{steps_left, steps_left-thread_process, wait_full-ne-blocked}
use cpp_tiny_lab.ThreadPool.{
  MyTask, ThreadPool, Outcome, next, blocked, stopped, fault, WorkerPc, take_front, unlock_run,
  thread_process, add_task, destory_thread_pool, System, init, Thread, worker, adder, destroyer,
  step, Reach, start, later,
}

-- `myTask(NULL, fun)`, as the main program makes it.
abbrev task : MyTask
task = record { arg = none; fun = some 1 }

abbrev other : MyTask
other = record { arg = some 5; fun = some 2 }

record Run (n m : ℕ) (lists : List (List MyTask)) : Type 0 where
  last : System
  reach : Reach n m lists last

module _ {n m : ℕ} {lists : List (List MyTask)} where
  abbrev advance :
      (r : Run n m lists) (c : Thread) (o : Outcome System) → step r.last c ≡ o → Run n m lists
  advance r c (next t) e = record { last = t; reach = later c r.reach e }
  advance r c blocked e = r
  advance r c stopped e = r
  advance r c fault e = r

  abbrev turn : Run n m lists → Thread → Run n m lists
  turn r c = advance r c (step r.last c) refl

abbrev schedule : (n m : ℕ) (lists : List (List MyTask)) → List Thread → Run n m lists
schedule n m lists = foldl turn (record { last = init n m lists; reach = start })

abbrev two_calls : List (List MyTask)
two_calls = (task ∷ other ∷ []) ∷ []

abbrev adds : ℕ → List Thread
adds k = replicate k (adder 0)

abbrev works : ℕ → List Thread
works k = replicate k (worker 0)

-- One task is in the worker's hands, the other in the queue.
abbrev busy : Run 1 2 two_calls
busy = schedule 1 2 two_calls (adds 14 ++ works 5)

-- Shut down, with the post made, while the worker waits.
abbrev closed_down : Run 1 2 ([] ∷ [])
closed_down = schedule 1 2 ([] ∷ []) (works 1 ++ destroyer ∷ destroyer ∷ [])

two_calls_funs : All (All HasFun) two_calls
two_calls_funs = ((λ e. cc, (λ e. cc, tt)), tt)

busy_state :
    (busy.last.pool.task_queue ≡ other ∷ [])
    × (busy.last.taken ≡ task ∷ [])
    × (busy.last.workers ≡ unlock_run task ∷ [])
unfolding step init thread_process add_task destory_thread_pool
busy_state = (refl, refl, refl)

-- Each task is called once, in order.
both_called : (schedule 1 2 two_calls (adds 14 ++ works 20)).last.called ≡ task ∷ other ∷ []
unfolding step init thread_process add_task destory_thread_pool
both_called = refl

-- `destoryThreadPool` destroys the semaphores at once: a worker that still waits then uses one.
wait_destroyed :
    step (schedule 1 2 ([] ∷ []) (works 1 ++ replicate 3 destroyer)).last (worker 0) ≡ fault
unfolding step init thread_process add_task destory_thread_pool
wait_destroyed = refl

Reach-Inv_example : Inv busy.last
Reach-Inv_example = Reach-Inv busy.reach

called-in_order_example :
    (p : WorkerPc) × (busy.last.workers ≡ p ∷ [])
    × (busy.last.pushed ≡ busy.last.called ++ (in_hand p ++ busy.last.pool.task_queue))
called-in_order_example = called-in_order busy.reach

occurrences-eq-added_example : occurrences task busy.last ≡ count task (flatten two_calls)
unfolding step init thread_process add_task destory_thread_pool
occurrences-eq-added_example = occurrences-eq-added busy.reach refl task

task_queue-le-max_example : length busy.last.pool.task_queue ≤ 2
task_queue-le-max_example = task_queue-le-max busy.reach

mutual_exclusion_example : critical busy.last (worker 0) + critical busy.last (adder 0) ≤ 1
mutual_exclusion_example = mutual_exclusion busy.reach (worker 0) (adder 0) (λ e. cc)

step-ne-fault_example : step busy.last (worker 0) ≢ fault
unfolding step init thread_process add_task destory_thread_pool
step-ne-fault_example = step-ne-fault two_calls_funs busy.reach refl (worker 0)

no_deadlock_example : (c : Thread) × (t : System) × (step busy.last c ≡ next t) × (c ≢ destroyer)
unfolding step init thread_process add_task destory_thread_pool
no_deadlock_example =
    no_deadlock (omega arith) (omega arith) two_calls_funs busy.reach refl (inl (λ e. cc))

abbrev shut_pool : ThreadPool
shut_pool = record closed_down.last.pool { task_queue = task ∷ [] }

steps_left-thread_process_example :
    (steps_left (unlock_run task) < steps_left take_front) × (shut_pool.shufdown ≡ true)
unfolding step init thread_process add_task destory_thread_pool
steps_left-thread_process_example =
    steps_left-thread_process shut_pool (record shut_pool { task_queue = [] }) take_front
      (unlock_run task) refl refl

wait_full-ne-blocked_example : step closed_down.last (worker 0) ≢ blocked
unfolding step init thread_process add_task destory_thread_pool
wait_full-ne-blocked_example = wait_full-ne-blocked closed_down.reach refl 0 refl

-- The numbers 2 and -1 are read, and both tasks are called; the second worker waits for the first.
abbrev numbers : List ℤ
numbers = pos 2 ∷ minus_one ∷ pos 3 ∷ []

abbrev main_run : Run 2 5 (main_tasks numbers ∷ [])
main_run = schedule 2 5 (main_tasks numbers ∷ []) (adds 14 ++ works 17 ++ worker 1 ∷ [])

main_run_still : (c : Thread) (t : System) → c ≢ destroyer → step main_run.last c ≢ next t
unfolding main_tasks step init thread_process add_task destory_thread_pool
main_run_still (worker zero) t h e = cc
main_run_still (worker (suc zero)) t h e = cc
main_run_still (worker (suc (suc i))) t h e = cc
main_run_still (adder zero) t h e = cc
main_run_still (adder (suc i)) t h e = cc
main_run_still destroyer t h e = h refl

called-eq-requested_example : count fun_task main_run.last.called ≡ 2
unfolding main_tasks step init thread_process add_task destory_thread_pool
called-eq-requested_example = called-eq-requested numbers main_run.reach refl main_run_still
