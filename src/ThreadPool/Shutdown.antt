-- ===== src/ThreadPool/Shutdown.antt =====
-- What `destoryThreadPool` of threadPool.cpp does to the workers.
use cpp_tiny_lab.Base.{
  ℕ, ◌<◌, ◌≡◌, ◌≢◌, true, some, List, arith, get_elem?, sum_by-ge, List-cases, inl, inr,
}
use cpp_tiny_lab.ThreadPool.Invariant.{Reach-Inv, is_waiting}
use cpp_tiny_lab.ThreadPool.{
  MyTask, ThreadPool, next, blocked, WorkerPc, test, wait_full, lock_queue, check, unlock_exit,
  take_front, unlock_run, post_empty, run, exited, pop_queue, call_task, thread_process, closing,
  System, worker, step_worker, step, Reach,
}

-- The steps that a worker has left once the pool is shut down.
abbrev pub steps_left : WorkerPc → ℕ
steps_left wait_full = 9
steps_left lock_queue = 8
steps_left check = 7
steps_left take_front = 6
steps_left (unlock_run t) = 5
steps_left (post_empty t) = 4
steps_left (run t) = 3
steps_left test = 2
steps_left unlock_exit = 1
steps_left exited = 0

-- Once the pool is shut down, every step of a worker lessens the number of steps that it has left,
-- nine at most, and leaves the pool shut down.
pub steps_left-thread_process :
    (p pool : ThreadPool) (pc q : WorkerPc)
    → p.shufdown ≡ true
    → thread_process p pc ≡ next (pool, q)
    → (steps_left q < steps_left pc) × (pool.shufdown ≡ true)
unfolding thread_process pop_queue call_task
steps_left-thread_process p pool take_front q h e = elim (List-cases p.task_queue) [
  | inl n ↦ ground arith
  | inr (t, ts, n) ↦ ground arith
]
steps_left-thread_process p pool pc q h e = ground arith

-- When `destoryThreadPool` has made its posts, no worker is left waiting for a task: whoever stands
-- before `sem_wait(&full_sem)` gets through.
pub wait_full-ne-blocked :
    {n m : ℕ} {lists : List (List MyTask)} {s : System}
    → Reach n m lists s
    → s.destroyer ≡ closing 0
    → (i : ℕ) → get_elem? s.workers i ≡ some wait_full
    → step s (worker i) ≢ blocked
unfolding step step_worker thread_process
wait_full-ne-blocked {s} r d i at b = ground (
  arith,
  at,
  b,
  (Reach-Inv r).wakeups,
  (Reach-Inv r).serves,
  sum_by-ge is_waiting s.workers i wait_full at,
)
