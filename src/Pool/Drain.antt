-- ===== src/Pool/Drain.antt =====
-- pthread_pool.cpp: what the threads do once nothing is added any more.
use cpp_study.Base.{
  count, ℕ, zero, suc, ◌+◌, ◌*◌, ◌<◌, ◌≤◌, ◌≡◌, refl, List, [], ◌∷◌, Bool, true, false, some, arith,
  length, get_elem?, set, ◌⊎◌, inl, inr,
}
use cpp_study.Pool.{
  Place, awake, waiting, running, gone, Worker, Pool, work_section, enter_section, finish_job, At,
  Step, Step.enter, Step.finish, Step.unasked, wake,
}
use cpp_study.Pool.Wake.{IsUp, up_awake, up_running, SomeUp, IsServed, Step-IsServed}
use cpp_study.Pool.Jobs.{count_running, IsKept, Step-IsKept}

-- A step of a thread in the order of its code.
pub data Work : Pool → Pool → Type 0 where
  work_enter : (p : Pool) (i : ℕ) (w : Worker) → At p i w awake → Work p (enter_section p i w)
  work_finish :
      (p : Pool) (i : ℕ) (w : Worker) (job : ℕ)
      → At p i w (running job)
      → Work p (finish_job p i w job)

-- The number of steps in a run of the threads, and of the waits that return unasked in it.
pub data Works (start : Pool) : ℕ → ℕ → Pool → Type 0 where
  start_of : Works start 0 0 start
  then_one : {n k : ℕ} {p q : Pool} → Works start n k p → Work p q → Works start (suc n) k q
  then_unasked :
      {n k : ℕ} {p : Pool}
      → Works start n k p
      → (i : ℕ) (w : Worker) → At p i w waiting
      → Works start n (suc k) (wake p i w)

abbrev pub effort : Place → ℕ
effort awake = 1
effort waiting = 0
effort (running job) = 2
effort gone = 0

abbrev pub effort_of_all : List Worker → ℕ
effort_of_all [] = 0
effort_of_all (w ∷ ws) = effort w.place + effort_of_all ws

-- Two steps for each job in the list, and what the threads are at.
abbrev pub work_left : Pool → ℕ
work_left p = 2 * length p.jobs + effort_of_all p.workers

effort-set :
    (ws : List Worker) (i : ℕ) (w v : Worker)
    → get_elem? ws i ≡ some w
    → effort_of_all (set ws i v) + effort w.place ≡ effort_of_all ws + effort v.place
effort-set [] i w v e = absurd (cc e)
effort-set (u ∷ ws) zero w v e = let same : u ≡ w = cc e in rw same (omega arith)
effort-set (u ∷ ws) (suc i) w v e = omega (arith, effort-set ws i w v e)

section-effort :
    (terminate : Bool) (jobs : List ℕ)
    → let (place, left) = work_section terminate jobs in
      2 * length left + effort place + 1 ≤ 2 * length jobs + 1
section-effort true [] = omega arith
section-effort false [] = omega arith
section-effort true (j ∷ jobs) = omega arith
section-effort false (j ∷ jobs) = omega arith

Work-less : (p q : Pool) → Work p q → work_left q < work_left p
unfolding enter_section finish_job
Work-less p _ (work_enter _ i w (e, at)) =
    let r = work_section w.terminate p.jobs in
    let v : Worker = record w { place = r.0 } in
    let one : effort w.place ≡ 1 = rw at refl in
    omega (arith, one, section-effort w.terminate p.jobs, effort-set p.workers i w v e)
Work-less p _ (work_finish _ i w job (e, at)) =
    let v : Worker = record w { place = awake } in
    let two : effort w.place ≡ 2 = rw at refl in omega (arith, two, effort-set p.workers i w v e)

-- A wait that returns unasked costs one more step.
wake-effort :
    (p : Pool) (i : ℕ) (w : Worker) → At p i w waiting → work_left (wake p i w) ≡ work_left p + 1
unfolding wake
wake-effort p i w (e, at) =
    let v : Worker = record w { place = awake } in
    let none_yet : effort w.place ≡ 0 = rw at refl in
    omega (arith, none_yet, effort-set p.workers i w v e)

Works-bound : (p : Pool) (n k : ℕ) (q : Pool) → Works p n k q → n + work_left q ≤ work_left p + k
Works-bound p _ _ _ start_of = omega arith
Works-bound p (suc n) k q (then_one {p = r} before step) =
    omega (arith, Works-bound p n k r before, Work-less r q step)
Works-bound p n (suc k) _ (then_unasked {p = r} before i w at) =
    omega (arith, Works-bound p n k r before, wake-effort r i w at)

-- A thread that is up takes a step, and where none is, none runs a job.
up-Work :
    (p : Pool) (i : ℕ) (w : Worker) (place : Place)
    → At p i w place
    → IsUp place
    → (q : Pool) × Work p q
up-Work p i w awake at up = (_, work_enter p i w at)
up-Work p i w (running job) at up = (_, work_finish p i w job at)
up-Work p i w waiting at up = elim up [ ]
up-Work p i w gone at up = elim up [ ]

abbrev Quiet : List Worker → Type 0
Quiet ws = (job : ℕ) → count_running job ws ≡ 0

Quiet-with :
    (w : Worker) (ws : List Worker) (place : Place)
    → w.place ≡ place
    → SomeUp ws ⊎ Quiet ws
    → SomeUp (w ∷ ws) ⊎ Quiet (w ∷ ws)
Quiet-with w ws place at (inl (i, v, e, up)) = inl (suc i, v, e, up)
Quiet-with w ws awake at (inr quiet) = inl (0, w, refl, rw at up_awake)
Quiet-with w ws (running job) at (inr quiet) = inl (0, w, refl, rw at (up_running job))
Quiet-with w ws waiting at (inr quiet) = inr λ job. rw (at, quiet job) refl
Quiet-with w ws gone at (inr quiet) = inr λ job. rw (at, quiet job) refl

up_or_Quiet : (ws : List Worker) → SomeUp ws ⊎ Quiet ws
up_or_Quiet [] = inr λ job. refl
up_or_Quiet (w ∷ ws) = Quiet-with w ws w.place refl (up_or_Quiet ws)

Work-Step : (p q : Pool) → Work p q → Step p q
Work-Step p _ (work_enter _ i w at) = enter p i w at
Work-Step p _ (work_finish _ i w job at) = finish p i w job at

Works-IsServed : (p : Pool) (n k : ℕ) (q : Pool) → IsServed p → Works p n k q → IsServed q
Works-IsServed p _ _ _ h start_of = h
Works-IsServed p (suc n) k q h (then_one {p = r} before step) =
    Step-IsServed r q (Works-IsServed p n k r h before) (Work-Step r q step)
Works-IsServed p n (suc k) q h (then_unasked {p = r} before i w at) =
    Step-IsServed r q (Works-IsServed p n k r h before) (unasked r i w at)

Works-IsKept :
    (job : ℕ) (p : Pool) (n k : ℕ) (q : Pool) → IsKept job p → Works p n k q → IsKept job q
Works-IsKept job p _ _ _ h start_of = h
Works-IsKept job p (suc n) k q h (then_one {p = r} before step) =
    Step-IsKept job r q (Works-IsKept job p n k r h before) (Work-Step r q step)
Works-IsKept job p n (suc k) q h (then_unasked {p = r} before i w at) =
    Step-IsKept job r q (Works-IsKept job p n k r h before) (unasked r i w at)

-- No job is left, and each is finished as often as it was added.
abbrev pub AllFinished : Pool → Type 0
AllFinished p = (p.jobs ≡ []) × ((job : ℕ) → count job p.added ≡ count job p.finished)

Quiet-AllFinished :
    (p : Pool) → p.jobs ≡ [] → Quiet p.workers → ((job : ℕ) → IsKept job p) → AllFinished p
Quiet-AllFinished p e quiet kept = (
  e,
  λ job.
      let none_left : count job p.jobs ≡ 0 = rw e refl in
      omega (arith, none_left, quiet job, kept job),
)

more_or_finished :
    (p : Pool)
    → IsServed p
    → ((job : ℕ) → IsKept job p)
    → SomeUp p.workers ⊎ Quiet p.workers
    → ((q : Pool) × Work p q) ⊎ AllFinished p
more_or_finished p h kept (inl (i, w, e, up)) = inl (up-Work p i w w.place (e, refl) up)
more_or_finished p h kept (inr quiet) = elim h.served [
  | inl none_left ↦ inr (Quiet-AllFinished p none_left quiet kept)
  | inr (i, w, e, up) ↦ inl (up-Work p i w w.place (e, refl) up)
]

-- Once nothing is added, the threads of a pool in which no wake-up is lost come to an end, in
-- whatever order they run, if their waits return unasked finitely often: they take at most two steps
-- for each job in the list, two for each one that runs, one for each thread before the lock and one
-- for each wait that returned unasked. After any run, either a thread has another step to take, or
-- the list is empty and each job is finished as often as it was added.
pub Works-finish :
    (n k : ℕ) (p q : Pool)
    → IsServed p
    → ((job : ℕ) → IsKept job p)
    → Works p n k q
    → (n ≤ work_left p + k) × (((r : Pool) × Work q r) ⊎ AllFinished q)
Works-finish n k p q h kept run = (
  omega (arith, Works-bound p n k q run),
  more_or_finished q (Works-IsServed p n k q h run) (λ job. Works-IsKept job p n k q (kept job) run)
      (up_or_Quiet q.workers),
)
