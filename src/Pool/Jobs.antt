-- ===== src/Pool/Jobs.antt =====
-- pthread_pool.cpp: where the jobs are that addJobToPool was given.
use cpp_study.Base.{
  count, one_if, ℕ, zero, suc, ◌+◌, ◌≡◌, ◌==◌, refl, List, [], ◌∷◌, Bool, true, false, some, arith,
  get_elem?, set,
}
use cpp_study.Pool.{
  Place, awake, waiting, running, gone, Worker, Pool, work_section, enter_section, finish_job, wake,
  add_job_to_pool, Step, Step.enter, Step.finish, Step.unasked, Step.add_heard, Step.add_unheard,
  Reachable, Reachable.here, Reachable.next,
}

-- 1 if the thread runs the job, else 0.
abbrev pub runs : ℕ → Place → ℕ
runs job (running j) = one_if (j == job)
runs job awake = 0
runs job waiting = 0
runs job gone = 0

abbrev pub count_running : ℕ → List Worker → ℕ
count_running job [] = 0
count_running job (w ∷ ws) = runs job w.place + count_running job ws

count_running-set :
    (job : ℕ) (ws : List Worker) (i : ℕ) (w v : Worker)
    → get_elem? ws i ≡ some w
    → count_running job (set ws i v) + runs job w.place ≡ count_running job ws + runs job v.place
count_running-set job [] i w v e = absurd (cc e)
count_running-set job (u ∷ ws) zero w v e = let same : u ≡ w = cc e in rw same (omega arith)
count_running-set job (u ∷ ws) (suc i) w v e = omega (arith, count_running-set job ws i w v e)

-- Each job is as often in the list, in a thread or finished as it was added.
abbrev pub IsKept : ℕ → Pool → Type 0
IsKept job p =
    count job p.added ≡ count job p.jobs + count_running job p.workers + count job p.finished

section-kept :
    (job : ℕ) (terminate : Bool) (jobs : List ℕ)
    → let (place, left) = work_section terminate jobs in
      count job jobs ≡ count job left + runs job place
section-kept job true [] = omega arith
section-kept job false [] = omega arith
section-kept job true (j ∷ jobs) = omega arith
section-kept job false (j ∷ jobs) = omega arith

pub Step-IsKept : (job : ℕ) (p q : Pool) → IsKept job p → Step p q → IsKept job q
unfolding enter_section finish_job wake add_job_to_pool
Step-IsKept job p _ h (enter _ i w (e, at)) =
    let r = work_section w.terminate p.jobs in
    let v : Worker = record w { place = r.0 } in
    let none : runs job w.place ≡ 0 = rw at refl in
    omega
      (arith, none, section-kept job w.terminate p.jobs, count_running-set job p.workers i w v e)
Step-IsKept job p _ h (finish _ i w j (e, at)) =
    let v : Worker = record w { place = awake } in
    let one : runs job w.place ≡ one_if (j == job) = rw at refl in
    omega (arith, one, count_running-set job p.workers i w v e)
Step-IsKept job p _ h (unasked _ i w (e, at)) =
    let v : Worker = record w { place = awake } in
    let none : runs job w.place ≡ 0 = rw at refl in
    omega (arith, none, count_running-set job p.workers i w v e)
Step-IsKept job p _ h (add_heard _ j i w (e, at)) =
    let v : Worker = record w { place = awake } in
    let none : runs job w.place ≡ 0 = rw at refl in
    omega (arith, none, count_running-set job p.workers i w v e)
Step-IsKept job p _ h (add_unheard _ j none_waits) = omega arith

-- No job is lost and none is run twice: in every state that the pool comes to from one in which it
-- is so, each job is as often in the list, in a running thread or finished, taken together, as
-- addJobToPool was given it, whether or not threads are told to end.
pub Reachable-IsKept : (job : ℕ) (p q : Pool) → IsKept job p → Reachable p q → IsKept job q
Reachable-IsKept job p _ h here = h
Reachable-IsKept job p q h (next {p = r} before step) =
    Step-IsKept job r q (Reachable-IsKept job p r h before) step
