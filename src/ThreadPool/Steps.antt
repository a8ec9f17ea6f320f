-- ===== src/ThreadPool/Steps.antt =====
-- How a step of threadPool.cpp's threads comes about, and induction over the reachable states.
use cpp_tiny_lab.Base.{ℕ, ◌≡◌, refl, Option, none, some, List, ◌++◌, get_elem?, set, subst}
use cpp_tiny_lab.ThreadPool.{
  MyTask, ThreadPool, Outcome, next, next-injective, WorkerPc, thread_process, AdderPc, add_task,
  DestroyerPc, destory_thread_pool, System, init, takes, runs, pushes, after_worker, after_adder,
  after_destroyer, Thread, worker, adder, destroyer, step_worker, step_adder, step, Reach, start,
  later,
}

-- A property of systems that every move of a worker, an adder or the destroyer keeps.
pub record Kept (P : System → Type 0) : Type 0 where
  pub by_worker :
      (s : System) (i : ℕ) (p q : WorkerPc) (pool : ThreadPool)
      → P s
      → get_elem? s.workers i ≡ some p
      → thread_process s.pool p ≡ next (pool, q)
      → P (record s {
        pool = pool;
        workers = set s.workers i q;
        taken = s.taken ++ takes p s.pool;
        called = s.called ++ runs p;
      })
  pub by_adder :
      (s : System) (i : ℕ) (p q : AdderPc) (pool : ThreadPool)
      → P s
      → get_elem? s.adders i ≡ some p
      → add_task s.pool p ≡ next (pool, q)
      → P (record s { pool = pool; adders = set s.adders i q; pushed = s.pushed ++ pushes p })
  pub by_destroyer :
      (s : System) (d q : DestroyerPc) (pool : ThreadPool)
      → P s
      → s.destroyer ≡ d
      → destory_thread_pool s.pool d ≡ next (pool, q)
      → P (record s { pool = pool; destroyer = q })

module _ {P : System → Type 0} (kept : Kept P) where
  after_worker-kept :
      (s t : System) (i : ℕ) (p : WorkerPc) (o : Outcome (ThreadPool × WorkerPc))
      → P s
      → get_elem? s.workers i ≡ some p
      → thread_process s.pool p ≡ o
      → after_worker s i p o ≡ next t
      → P t
  after_worker-kept s t i p (next (pool, q)) inv at e h =
      subst P (next-injective h) (kept.by_worker s i p q pool inv at e)
  after_worker-kept s t i p _ inv at e h = cc

  after_adder-kept :
      (s t : System) (i : ℕ) (p : AdderPc) (o : Outcome (ThreadPool × AdderPc))
      → P s
      → get_elem? s.adders i ≡ some p
      → add_task s.pool p ≡ o
      → after_adder s i p o ≡ next t
      → P t
  after_adder-kept s t i p (next (pool, q)) inv at e h =
      subst P (next-injective h) (kept.by_adder s i p q pool inv at e)
  after_adder-kept s t i p _ inv at e h = cc

  after_destroyer-kept :
      (s t : System) (o : Outcome (ThreadPool × DestroyerPc))
      → P s
      → destory_thread_pool s.pool s.destroyer ≡ o
      → after_destroyer s o ≡ next t
      → P t
  after_destroyer-kept s t (next (pool, q)) inv e h =
      subst P (next-injective h) (kept.by_destroyer s s.destroyer q pool inv refl e)
  after_destroyer-kept s t _ inv e h = cc

  worker_at-kept :
      (s t : System) (i : ℕ) (o : Option WorkerPc)
      → P s
      → get_elem? s.workers i ≡ o
      → step_worker s i o ≡ next t
      → P t
  unfolding step_worker
  worker_at-kept s t i none inv at h = cc
  worker_at-kept s t i (some p) inv at h = after_worker-kept s t i p _ inv at refl h

  adder_at-kept :
      (s t : System) (i : ℕ) (o : Option AdderPc)
      → P s
      → get_elem? s.adders i ≡ o
      → step_adder s i o ≡ next t
      → P t
  unfolding step_adder
  adder_at-kept s t i none inv at h = cc
  adder_at-kept s t i (some p) inv at h = after_adder-kept s t i p _ inv at refl h

  pub step-kept : (s t : System) (c : Thread) → P s → step s c ≡ next t → P t
  unfolding step
  step-kept s t (worker i) inv h = worker_at-kept s t i _ inv refl h
  step-kept s t (adder i) inv h = adder_at-kept s t i _ inv refl h
  step-kept s t destroyer inv h = after_destroyer-kept s t _ inv refl h

  pub Reach-kept :
      {n m : ℕ} {lists : List (List MyTask)} {s : System}
      → P (init n m lists)
      → Reach n m lists s
      → P s
  Reach-kept base start = base
  Reach-kept base (later {s} {t} c r h) = step-kept s t c (Reach-kept base r) h
