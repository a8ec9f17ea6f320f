-- ===== src/ThreadPool/Invariant.antt =====
-- What the semaphores and the mutex of threadPool.cpp count, in every state that a pool can reach.
use cpp_tiny_lab.Base.{
  ℕ, zero, suc, ◌+◌, ◌≤◌, ◌≡◌, refl, true, false, some, List, [], ◌∷◌, if◌then◌else◌, arith, length,
  length-append, get_elem?, set, sum_by, sum_by-set, sum_by-le, sum_by-ge, length-set,
  sum_by-le-length, length-replicate, sum_by-replicate, map,
}
use cpp_tiny_lab.ThreadPool.Steps.{Kept, Reach-kept}
use cpp_tiny_lab.ThreadPool.{
  MyTask, ThreadPool, next, WorkerPc, test, wait_full, lock_queue, check, unlock_exit, take_front,
  unlock_run, post_empty, run, exited, pop_queue, call_task, thread_process, AdderPc, calls,
  wait_empty, lock_tasks, recheck, push, unlock_return, unlock_post, post_full, add_task,
  DestroyerPc, serving, closing, closed, destory_thread_pool, System, init, Reach,
}

-- Between `pthread_mutex_lock` and `pthread_mutex_unlock`.
abbrev pub holds : WorkerPc → ℕ
holds check = 1
holds unlock_exit = 1
holds take_front = 1
holds (unlock_run t) = 1
holds _ = 0

abbrev pub adder_holds : AdderPc → ℕ
adder_holds (recheck t ts) = 1
adder_holds (push t ts) = 1
adder_holds (unlock_return ts) = 1
adder_holds (unlock_post ts) = 1
adder_holds _ = 0

-- A slot of the queue that `empty_sem` has given out and that is not in the queue.
abbrev pub has_slot : WorkerPc → ℕ
has_slot (unlock_run t) = 1
has_slot (post_empty t) = 1
has_slot _ = 0

abbrev pub adder_slot : AdderPc → ℕ
adder_slot (lock_tasks t ts) = 1
adder_slot (recheck t ts) = 1
adder_slot (push t ts) = 1
adder_slot _ = 0

-- A task in the queue that is counted by a thread and no longer, or not yet, by `full_sem`.
abbrev pub has_token : WorkerPc → ℕ
has_token lock_queue = 1
has_token check = 1
has_token take_front = 1
has_token _ = 0

abbrev pub adder_token : AdderPc → ℕ
adder_token (unlock_post ts) = 1
adder_token (post_full ts) = 1
adder_token _ = 0

abbrev pub is_taking : WorkerPc → ℕ
is_taking take_front = 1
is_taking _ = 0

abbrev pub is_waiting : WorkerPc → ℕ
is_waiting wait_full = 1
is_waiting _ = 0

abbrev pub is_leaving : WorkerPc → ℕ
is_leaving unlock_exit = 1
is_leaving exited = 1
is_leaving _ = 0

-- The posts that `destoryThreadPool` has still to make.
abbrev pub posts_left : ThreadPool → DestroyerPc → ℕ
posts_left p serving = p.max_thread_nums
posts_left p (closing k) = k
posts_left p closed = 0

pub record Inv (s : System) : Type 0 where
  pub mutex :
      sum_by holds s.workers + sum_by adder_holds s.adders ≡ (if s.pool.locked then 1 else 0)
  pub slots :
      s.pool.empty_sem
        + length s.pool.task_queue
        + sum_by has_slot s.workers
        + sum_by adder_slot s.adders
      ≤ s.pool.max_task_nums
  pub tokens :
      s.pool.shufdown ≡ false
      → length s.pool.task_queue
        ≡ s.pool.full_sem + sum_by has_token s.workers + sum_by adder_token s.adders
  pub all_slots :
      s.pool.shufdown ≡ false
      → s.pool.empty_sem
          + length s.pool.task_queue
          + sum_by has_slot s.workers
          + sum_by adder_slot s.adders
        ≡ s.pool.max_task_nums
  pub taking : sum_by is_taking s.workers ≤ length s.pool.task_queue
  pub wakeups :
      s.pool.shufdown ≡ true
      → sum_by is_waiting s.workers ≤ s.pool.full_sem + posts_left s.pool s.destroyer
  pub threads : length s.workers ≡ s.pool.max_thread_nums
  pub serves : s.pool.shufdown ≡ false → s.destroyer ≡ serving
  pub intact : s.pool.shufdown ≡ false → s.pool.destroyed ≡ false
  pub stays : s.pool.shufdown ≡ false → sum_by is_leaving s.workers ≡ 0

taking-le-holds : (pc : WorkerPc) → is_taking pc ≤ holds pc
taking-le-holds pc = ground arith

waiting-le-one : (pc : WorkerPc) → is_waiting pc ≤ 1
waiting-le-one pc = ground arith

module _ (s : System) (inv : Inv s) (i : ℕ) where
  open inv use {mutex, slots, tokens, taking, wakeups, threads, serves, all_slots, intact, stays}

  -- The sums over the workers after worker `i` has moved from `p` to `q`.
  record Moved (p q : WorkerPc) (ws : List WorkerPc) : Type 0 where
    holding : sum_by holds ws + holds p ≡ sum_by holds s.workers + holds q
    slot : sum_by has_slot ws + has_slot p ≡ sum_by has_slot s.workers + has_slot q
    token : sum_by has_token ws + has_token p ≡ sum_by has_token s.workers + has_token q
    take : sum_by is_taking ws + is_taking p ≡ sum_by is_taking s.workers + is_taking q
    wait : sum_by is_waiting ws + is_waiting p ≡ sum_by is_waiting s.workers + is_waiting q
    leave : sum_by is_leaving ws + is_leaving p ≡ sum_by is_leaving s.workers + is_leaving q
    excluded : sum_by is_taking s.workers + holds p ≤ sum_by holds s.workers + is_taking p
    has : has_token p ≤ sum_by has_token s.workers
    size : length ws ≡ length s.workers

  moved : (p q : WorkerPc) → get_elem? s.workers i ≡ some p → Moved p q (set s.workers i q)
  moved p q e = record {
    holding = sum_by-set holds s.workers i p q e;
    slot = sum_by-set has_slot s.workers i p q e;
    token = sum_by-set has_token s.workers i p q e;
    take = sum_by-set is_taking s.workers i p q e;
    wait = sum_by-set is_waiting s.workers i p q e;
    leave = sum_by-set is_leaving s.workers i p q e;
    excluded = sum_by-le is_taking holds taking-le-holds s.workers i p e;
    has = sum_by-ge has_token s.workers i p e;
    size = length-set s.workers i q;
  }

  worker-Inv :
      (p q : WorkerPc) (pool : ThreadPool) (ws : List WorkerPc) (ts us : List MyTask)
      → Moved p q ws
      → thread_process s.pool p ≡ next (pool, q)
      → Inv (record s { pool = pool; workers = ws; taken = ts; called = us })
  unfolding thread_process pop_queue call_task
  worker-Inv test q pool ws ts us m e = ground arith
  worker-Inv wait_full q pool ws ts us m e = ground arith
  worker-Inv lock_queue q pool ws ts us m e = ground arith
  worker-Inv check q pool ws ts us m e = ground arith
  worker-Inv unlock_exit q pool ws ts us m e = ground arith
  worker-Inv take_front q pool ws ts us m e = ground arith
  worker-Inv (unlock_run t) q pool ws ts us m e = ground arith
  worker-Inv (post_empty t) q pool ws ts us m e = ground arith
  worker-Inv (run t) q pool ws ts us m e = ground arith
  worker-Inv exited q pool ws ts us m e = cc

  -- The sums over the adders after adder `i` has moved from `p` to `q`.
  record AdderMoved (p q : AdderPc) (ps : List AdderPc) : Type 0 where
    holding : sum_by adder_holds ps + adder_holds p ≡ sum_by adder_holds s.adders + adder_holds q
    slot : sum_by adder_slot ps + adder_slot p ≡ sum_by adder_slot s.adders + adder_slot q
    token : sum_by adder_token ps + adder_token p ≡ sum_by adder_token s.adders + adder_token q

  adder_moved : (p q : AdderPc) → get_elem? s.adders i ≡ some p → AdderMoved p q (set s.adders i q)
  adder_moved p q e = record {
    holding = sum_by-set adder_holds s.adders i p q e;
    slot = sum_by-set adder_slot s.adders i p q e;
    token = sum_by-set adder_token s.adders i p q e;
  }

  adder-Inv :
      (p q : AdderPc) (pool : ThreadPool) (ps : List AdderPc) (ts : List MyTask)
      → AdderMoved p q ps
      → add_task s.pool p ≡ next (pool, q)
      → Inv (record s { pool = pool; adders = ps; pushed = ts })
  unfolding add_task
  adder-Inv (calls []) q pool ps ts m e = cc
  adder-Inv (calls (t ∷ us)) q pool ps ts m e = ground arith
  adder-Inv (wait_empty t us) q pool ps ts m e = ground arith
  adder-Inv (lock_tasks t us) q pool ps ts m e = ground arith
  adder-Inv (recheck t us) q pool ps ts m e = ground arith
  adder-Inv (push t us) q pool ps ts m e = ground (arith, length-append s.pool.task_queue (t ∷ []))
  adder-Inv (unlock_return us) q pool ps ts m e = ground arith
  adder-Inv (unlock_post us) q pool ps ts m e = ground arith
  adder-Inv (post_full us) q pool ps ts m e = ground arith

destroyer-Inv :
    (s : System) (d q : DestroyerPc) (pool : ThreadPool)
    → Inv s
    → s.destroyer ≡ d
    → destory_thread_pool s.pool d ≡ next (pool, q)
    → Inv (record s { pool = pool; destroyer = q })
unfolding destory_thread_pool
destroyer-Inv s serving q pool inv d e =
    ground (arith, sum_by-le-length is_waiting waiting-le-one s.workers)
destroyer-Inv s (closing zero) q pool inv d e = ground arith
destroyer-Inv s (closing (suc k)) q pool inv d e = ground arith
destroyer-Inv s closed q pool inv d e = cc

Inv-kept : Kept Inv
Inv-kept = record {
  by_worker = λ s i p q pool inv at e. worker-Inv s inv i p q pool _ _ _ (moved s inv i p q at) e;
  by_adder = λ s i p q pool inv at e. adder-Inv s inv i p q pool _ _ (adder_moved s inv i p q at) e;
  by_destroyer = destroyer-Inv;
}

sum_by-calls-holds : (ls : List (List MyTask)) → sum_by adder_holds (map calls ls) ≡ 0
sum_by-calls-holds [] = refl
sum_by-calls-holds (l ∷ ls) = omega (arith, sum_by-calls-holds ls)

sum_by-calls-slot : (ls : List (List MyTask)) → sum_by adder_slot (map calls ls) ≡ 0
sum_by-calls-slot [] = refl
sum_by-calls-slot (l ∷ ls) = omega (arith, sum_by-calls-slot ls)

sum_by-calls-token : (ls : List (List MyTask)) → sum_by adder_token (map calls ls) ≡ 0
sum_by-calls-token [] = refl
sum_by-calls-token (l ∷ ls) = omega (arith, sum_by-calls-token ls)

init-Inv : (n m : ℕ) (ls : List (List MyTask)) → Inv (init n m ls)
unfolding init
init-Inv n m ls = record {
  mutex = omega (arith, sum_by-replicate holds n test refl, sum_by-calls-holds ls);
  slots = omega (arith, sum_by-replicate has_slot n test refl, sum_by-calls-slot ls);
  all_slots = λ _. omega (arith, sum_by-replicate has_slot n test refl, sum_by-calls-slot ls);
  tokens = λ _. omega (arith, sum_by-replicate has_token n test refl, sum_by-calls-token ls);
  taking = omega (arith, sum_by-replicate is_taking n test refl);
  wakeups = λ e. cc;
  threads = length-replicate n test;
  serves = λ _. refl;
  intact = λ _. refl;
  stays = λ _. sum_by-replicate is_leaving n test refl;
}

-- Whatever the schedule, the semaphores, the queue and the mutex count the threads that use them.
pub Reach-Inv : {n m : ℕ} {lists : List (List MyTask)} {s : System} → Reach n m lists s → Inv s
Reach-Inv {n} {m} {lists} r = Reach-kept Inv-kept (init-Inv n m lists) r
