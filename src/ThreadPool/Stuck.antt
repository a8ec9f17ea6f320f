-- ===== src/ThreadPool/Stuck.antt =====
-- Where the threads of threadPool.cpp stand when none of them can move.
use cpp_tiny_lab.Base.{
  ℕ, ◌<◌, ◌≡◌, ◌≢◌, refl, Bool, true, false, some, List, [], ◌∷◌, ◌⊎◌, inl, inr, arith, length,
  get_elem?, sum_by-eq-zero, sum_by-ge, first, length-eq-zero, All, ap, sym, sum_by,
}
use cpp_tiny_lab.ThreadPool.Invariant.{
  Reach-Inv, holds, adder_holds, has_slot, adder_slot, has_token, adder_token, is_leaving,
}
use cpp_tiny_lab.ThreadPool.Tasks.{
  HasFun, in_hand, hand_weight, pending_weight, is_task, count, occurrences, everywhere-occurrences,
}
use cpp_tiny_lab.ThreadPool.Safety.{step-ne-fault, Reach-HasSizes}
use cpp_tiny_lab.ThreadPool.{
  MyTask, ThreadPool, Outcome, next, blocked, stopped, fault, WorkerPc, take_front, unlock_run,
  post_empty, run, pop_queue, call_task, thread_process, after_worker, after_adder, AdderPc, calls,
  add_task, System, worker, step_worker, step, Reach,
}

abbrev pub moves {ℓ} : {A : Type ℓ} → Outcome A → Bool
moves (next a) = true
moves _ = false

pub moves-next {ℓ} : {A : Type ℓ} (o : Outcome A) → moves o ≡ true → (a : A) × (o ≡ next a)
moves-next (next a) h = (a, refl)
moves-next blocked h = cc
moves-next stopped h = cc
moves-next fault h = cc

pub moves-after_worker :
    (s : System) (i : ℕ) (p : WorkerPc) (o : Outcome (ThreadPool × WorkerPc))
    → moves (after_worker s i p o) ≡ moves o
moves-after_worker s i p (next a) = refl
moves-after_worker s i p _ = refl

pub moves-after_adder :
    (s : System) (i : ℕ) (p : AdderPc) (o : Outcome (ThreadPool × AdderPc))
    → moves (after_adder s i p o) ≡ moves o
moves-after_adder s i p (next a) = refl
moves-after_adder s i p _ = refl

-- Where a worker of an open pool stands that cannot move.
worker_stuck :
    (pool : ThreadPool) (p : WorkerPc)
    → pool.destroyed ≡ false
    → thread_process pool p ≢ fault
    → moves (thread_process pool p) ≡ false
    → (holds p ≡ 0)
      × (has_slot p ≡ 0)
      × (((pool.full_sem ≡ 0) × (has_token p ≡ 0)) ⊎ (pool.locked ≡ true) ⊎ (is_leaving p ≡ 1))
unfolding thread_process pop_queue call_task
worker_stuck pool take_front d f h = ground arith
worker_stuck pool (run t) d f h = ground arith
worker_stuck pool p d f h = ground arith

-- It has no task in its hands.
worker_hand :
    (pool : ThreadPool) (p : WorkerPc)
    → pool.destroyed ≡ false
    → thread_process pool p ≢ fault
    → moves (thread_process pool p) ≡ false
    → in_hand p ≡ []
unfolding thread_process pop_queue call_task
worker_hand pool (unlock_run t) d f h = ground arith
worker_hand pool (post_empty t) d f h = ground arith
worker_hand pool (run t) d f h = ground arith
worker_hand pool p d f h = refl

-- Where an adder stands that cannot move.
adder_stuck :
    (pool : ThreadPool) (a : AdderPc)
    → pool.destroyed ≡ false
    → moves (add_task pool a) ≡ false
    → (adder_holds a ≡ 0)
      × (adder_token a ≡ 0)
      × ((pool.locked ≡ true) ⊎ ((adder_slot a ≡ 0) × ((a ≡ calls []) ⊎ (pool.empty_sem ≡ 0))))
unfolding add_task
adder_stuck pool (calls []) d h = ground arith
adder_stuck pool (calls (t ∷ ts)) d h = ground arith
adder_stuck pool a d h = ground arith

-- An open pool in which no worker and no adder can move.
pub record IsStuck (s : System) : Type 0 where
  pub workers :
      (i : ℕ) (p : WorkerPc)
      → get_elem? s.workers i ≡ some p
      → moves (thread_process s.pool p) ≡ false
  pub adders :
      (i : ℕ) (a : AdderPc) → get_elem? s.adders i ≡ some a → moves (add_task s.pool a) ≡ false

module _ {n m : ℕ} {lists : List (List MyTask)} {s : System} (r : Reach n m lists s)
    (funs : All (All HasFun) lists) (opened : s.pool.shufdown ≡ false) where
  whole : s.pool.destroyed ≡ false
  whole = (Reach-Inv r).intact opened

  worker-ne-fault :
      (i : ℕ) (p : WorkerPc) → get_elem? s.workers i ≡ some p → thread_process s.pool p ≢ fault
  unfolding step step_worker
  worker-ne-fault i p at e = step-ne-fault funs r whole (worker i) (rw (at, e) refl)

  module _ (stuck : IsStuck s) where
    at_worker :
        (i : ℕ) (p : WorkerPc)
        → get_elem? s.workers i ≡ some p
        → (holds p ≡ 0)
          × (has_slot p ≡ 0)
          × (((s.pool.full_sem ≡ 0) × (has_token p ≡ 0))
              ⊎ (s.pool.locked ≡ true)
              ⊎ (is_leaving p ≡ 1))
    at_worker i p at = worker_stuck s.pool p whole (worker-ne-fault i p at) (stuck.workers i p at)

    at_adder :
        (i : ℕ) (a : AdderPc)
        → get_elem? s.adders i ≡ some a
        → (adder_holds a ≡ 0)
          × (adder_token a ≡ 0)
          × ((s.pool.locked ≡ true)
              ⊎ ((adder_slot a ≡ 0) × ((a ≡ calls []) ⊎ (s.pool.empty_sem ≡ 0))))
    at_adder i a at = adder_stuck s.pool a whole (stuck.adders i a at)

    unlocked : s.pool.locked ≡ false
    unlocked = ground (
      arith,
      (Reach-Inv r).mutex,
      sum_by-eq-zero holds s.workers (λ i p at. (at_worker i p at).0),
      sum_by-eq-zero adder_holds s.adders (λ i a at. (at_adder i a at).0),
    )

    none_leaves : (i : ℕ) (p : WorkerPc) → get_elem? s.workers i ≡ some p → is_leaving p ≡ 0
    none_leaves i p at =
        omega (arith, (Reach-Inv r).stays opened, sum_by-ge is_leaving s.workers i p at)

    waits :
        (i : ℕ) (p : WorkerPc)
        → get_elem? s.workers i ≡ some p
        → (s.pool.full_sem ≡ 0) × (has_token p ≡ 0)
    waits i p at = ground (arith, at_worker i p at, none_leaves i p at, unlocked)

    adder_waits :
        (i : ℕ) (a : AdderPc)
        → get_elem? s.adders i ≡ some a
        → (adder_slot a ≡ 0) × ((a ≡ calls []) ⊎ (s.pool.empty_sem ≡ 0))
    adder_waits i a at = ground (arith, at_adder i a at, unlocked)

    pub queue_empty : 0 < n → length s.pool.task_queue ≡ 0
    queue_empty h =
        let (p, at) =
          first s.workers (omega (arith, (Reach-Inv r).threads, (Reach-HasSizes r).threads)) in
        omega (
          arith,
          (Reach-Inv r).tokens opened,
          (waits 0 p at).0,
          sum_by-eq-zero has_token s.workers (λ i q e. (waits i q e).1),
          sum_by-eq-zero adder_token s.adders (λ i a e. (at_adder i a e).1),
        )

    pub adders_done :
        0 < n → 0 < m → (i : ℕ) (a : AdderPc) → get_elem? s.adders i ≡ some a → a ≡ calls []
    adders_done hn hm i a at = elim (adder_waits i a at).1 [
      | inl done ↦ done
      | inr full ↦ absurd (
          omega (
            arith,
            (Reach-Inv r).all_slots opened,
            (Reach-HasSizes r).tasks,
            queue_empty hn,
            sum_by-eq-zero has_slot s.workers (λ j q e. (at_worker j q e).1),
            sum_by-eq-zero adder_slot s.adders (λ j b e. (adder_waits j b e).0),
          ))
    ]

    -- Every task has been called.
    pub all_called : 0 < n → 0 < m → (t : MyTask) → count t s.called ≡ occurrences t s
    all_called hn hm t = omega (
      arith,
      sym (everywhere-occurrences t s),
      sum_by-eq-zero (hand_weight (is_task t)) s.workers (λ i p at.
          ap (sum_by (is_task t))
            (worker_hand s.pool p whole (worker-ne-fault i p at) (stuck.workers i p at))),
      sum_by-eq-zero (pending_weight (is_task t)) s.adders
          (λ i a at. ap (pending_weight (is_task t)) (adders_done hn hm i a at)),
      ap (sum_by (is_task t)) (length-eq-zero s.pool.task_queue (queue_empty hn)),
    )
