-- ===== src/ThreadPool/Main.antt =====
-- The main program of the thread pool, ThreadPool/src/main.cpp, as the tasks that it adds.
use mathlib.Core.List.{flatten}
use cpp_tiny_lab.Base.{
  ℕ, zero, suc, ◌+◌, ◌≡◌, ◌≢◌, refl, false, none, some, List, [], ◌∷◌, ◌++◌, if◌then◌else◌, arith,
  All, append-nil, sum_by, sum_by-append, All-append, ltb, ◌<◌, ◌-◌, Bool, true, ◌∙◌, ap,
  Bool-cases, inl, inr,
}
use cpp_tiny_lab.Base.Int.{ℤ, pos, negsuc, minus_one, eq_ℤ}
use cpp_tiny_lab.ThreadPool.{MyTask, System, Thread, destroyer, next, fault, step, Reach}
use cpp_tiny_lab.ThreadPool.Tasks.{
  HasFun, count, is_task, MyTask-discrete, occurrences, occurrences-eq-added,
}
use cpp_tiny_lab.ThreadPool.Safety.{step-ne-fault}
use cpp_tiny_lab.ThreadPool.Progress.{still-IsStuck}
use cpp_tiny_lab.ThreadPool.Stuck.{all_called}
use mathlib.Core.Logic.{if_pos}

-- `myTask(NULL, fun)`, where `fun` is at the address 0 of the code.
abbrev pub fun_task : MyTask
fun_task = record { arg = none; fun = some 0 }

-- `i < num`
abbrev below : ℕ → ℤ → Bool
below i (pos n) = ltb i n
below i (negsuc n) = false

-- `for (int i = 0; i < num; i++)`, from `i` on: the tasks of the calls of `addTask`.
rounds : ℕ → ℕ → ℤ → List MyTask
rounds zero i num = []
rounds (suc fuel) i num =
    let rest = rounds fuel (suc i) num in if below i num then fun_task ∷ rest else []

-- One round for each number below `num`, and the last test.
abbrev rounds_fuel : ℤ → ℕ
rounds_fuel (pos n) = suc n
rounds_fuel (negsuc n) = 1

-- The tasks of the calls of `addTask`, by the numbers that `scanf` reads; -1 ends the loop.
unfoldable pub main_tasks : List ℤ → List MyTask
unfolding rounds
main_tasks [] = []
main_tasks (num ∷ nums) =
    let rest = main_tasks nums in
    if eq_ℤ num minus_one then [] else rounds (rounds_fuel num) 0 num ++ rest

-- The numbers before the first -1.
abbrev pub before_end : List ℤ → List ℤ
before_end [] = []
before_end (num ∷ nums) =
    let rest = before_end nums in if eq_ℤ num minus_one then [] else num ∷ rest

abbrev pub positive : ℤ → ℕ
positive (pos n) = n
positive (negsuc n) = 0

-- The positive ones of them, added up.
abbrev pub requested : List ℤ → ℕ
requested nums = sum_by positive (before_end nums)

is_task_self : (t : MyTask) → is_task t t ≡ 1
is_task_self t = elim (MyTask-discrete t t) [
  | yes p ↦ rw (if_pos _ p) refl
  | no p ↦ absurd (p refl)
]

count-rounds :
    (fuel i : ℕ) (num : ℤ)
    → positive num < fuel + i
    → count fun_task (rounds fuel i num) ≡ positive num - i
unfolding rounds
count-rounds zero i num h = omega arith
count-rounds (suc fuel) i (negsuc n) h = omega arith
count-rounds (suc fuel) i (pos n) h =
    ground (arith, is_task_self fun_task, count-rounds fuel (suc i) (pos n))

rounds_fuel-enough : (num : ℤ) → positive num < rounds_fuel num + 0
rounds_fuel-enough (pos n) = omega arith
rounds_fuel-enough (negsuc n) = omega arith

count-main_tasks : (nums : List ℤ) → count fun_task (main_tasks nums) ≡ requested nums
unfolding main_tasks
count-main_tasks [] = refl
count-main_tasks (num ∷ nums) = elim (Bool-cases (eq_ℤ num minus_one)) [
  | inl e ↦ rw (e, main_tasks) refl
  | inr e ↦
      rw (e, main_tasks)
        (sum_by-append (is_task fun_task) (rounds (rounds_fuel num) 0 num) (main_tasks nums)
          ∙ (omega (
            arith,
            count-rounds (rounds_fuel num) 0 num (rounds_fuel-enough num),
            count-main_tasks nums,
          )))
]

if-All {ℓ κ} :
    {A : Type ℓ} (P : A → Type κ) (b : Bool) (xs : List A) → All P xs → All P (if b then xs else [])
if-All P true xs h = h
if-All P false xs h = tt

rounds-HasFun : (fuel i : ℕ) (num : ℤ) → All HasFun (rounds fuel i num)
unfolding rounds
rounds-HasFun zero i num = tt
rounds-HasFun (suc fuel) i num =
    if-All HasFun (below i num) (fun_task ∷ rounds fuel (suc i) num)
      ((λ q. cc), rounds-HasFun fuel (suc i) num)

main_tasks-HasFun : (nums : List ℤ) → All HasFun (main_tasks nums)
unfolding main_tasks
main_tasks-HasFun [] = tt
main_tasks-HasFun (num ∷ nums) = elim (Bool-cases (eq_ℤ num minus_one)) [
  | inl e ↦ rw (e, main_tasks) tt
  | inr e ↦
      rw (e, main_tasks)
        (All-append HasFun (rounds (rounds_fuel num) 0 num) (main_tasks nums)
          (rounds-HasFun (rounds_fuel num) 0 num) (main_tasks-HasFun nums))
]

module _ (nums : List ℤ) {s : System} (r : Reach 2 5 (main_tasks nums ∷ []) s) where
  -- Whatever numbers are read, no step of the program is undefined before the semaphores are destroyed.
  pub main-ne-fault : s.pool.destroyed ≡ false → (c : Thread) → step s c ≢ fault
  main-ne-fault d c = step-ne-fault (main_tasks-HasFun nums, tt) r d c

  -- Until the pool is shut down, the runs of `fun` that are still to add, queued, in a worker's hands
  -- or made are as many as the positive numbers add up to that were read before the first -1.
  pub occurrences-eq-requested : s.pool.shufdown ≡ false → occurrences fun_task s ≡ requested nums
  unfolding flatten
  occurrences-eq-requested h =
      occurrences-eq-added r h fun_task
      ∙ ap (count fun_task) (append-nil (main_tasks nums))
      ∙ count-main_tasks nums

  -- Whatever numbers are read: once neither a worker nor the loop that adds can move, the pool not
  -- being shut down, `fun` has run as often as the positive numbers add up to that were read before
  -- the first -1.
  pub called-eq-requested :
      s.pool.shufdown ≡ false
      → ((c : Thread) (t : System) → c ≢ destroyer → step s c ≢ next t)
      → count fun_task s.called ≡ requested nums
  called-eq-requested h still =
      all_called r (main_tasks-HasFun nums, tt) h (still-IsStuck s still) (omega arith)
        (omega arith) fun_task
      ∙ occurrences-eq-requested h
