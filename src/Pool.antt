-- ===== src/Pool.antt =====
-- temp/pthread_pool.cpp: a pool of threads that take jobs from a shared list under a mutex.
--
-- What a thread does while it holds `jobs_mtx` is one step, since no other thread is inside then. A
-- job is a number. Nothing in the file sets `terminate`; it is modelled for what workThread does
-- with it.
pub mod Links
pub mod Create
pub mod Jobs
pub mod Wake
pub mod Drain
use cpp_study.Base.{
  ℕ, zero, suc, ◌≡◌, ◌≢◌, List, [], ◌∷◌, ◌++◌, Bool, true, false, Option, some, none, if◌then◌else◌,
  get_elem?, set,
}

-- Where workThread is: before pthread_mutex_lock, or back from the wait; in pthread_cond_wait; in
-- the call of cb_fun; past the loop.
pub data Place : Type 0 where
  awake : Place
  waiting : Place
  running : ℕ → Place
  gone : Place

pub record Worker : Type 0 where
  pub terminate : Bool
  pub place : Place

-- The pool, with the jobs that addJobToPool was given and those that cb_fun is done with.
pub record Pool : Type 0 where
  pub jobs : List ℕ
  pub workers : List Worker
  pub added : List ℕ
  pub finished : List ℕ

-- workThread from the lock, or from the return of the wait, to the next unlock or wait.
abbrev pub work_section : Bool → List ℕ → Place × List ℕ
work_section terminate [] = if terminate then (gone, []) else (waiting, [])
work_section terminate (job ∷ jobs) = if terminate then (gone, job ∷ jobs) else (running job, jobs)

unfoldable pub enter_section : Pool → ℕ → Worker → Pool
enter_section p i w =
    let (place, jobs) = work_section w.terminate p.jobs in
    record p { jobs = jobs; workers = set p.workers i (record w { place = place }) }

-- The return of cb_fun.
unfoldable pub finish_job : Pool → ℕ → Worker → ℕ → Pool
finish_job p i w job = record p {
  workers = set p.workers i (record w { place = awake });
  finished = job ∷ p.finished;
}

unfoldable pub wake : Pool → ℕ → Worker → Pool
wake p i w = record p { workers = set p.workers i (record w { place = awake }) }

-- addJobToPool, but for whom pthread_cond_signal wakes.
unfoldable pub add_job_to_pool : Pool → ℕ → Pool
add_job_to_pool p job = record p { jobs = job ∷ p.jobs; added = job ∷ p.added }

abbrev pub At : Pool → ℕ → Worker → Place → Type 0
At p i w place = (get_elem? p.workers i ≡ some w) × (w.place ≡ place)

-- A step of the threads: pthread_cond_signal wakes a thread that waits, if there is one, and a wait
-- may return unasked.
pub data Step : Pool → Pool → Type 0 where
  enter : (p : Pool) (i : ℕ) (w : Worker) → At p i w awake → Step p (enter_section p i w)
  finish :
      (p : Pool) (i : ℕ) (w : Worker) (job : ℕ)
      → At p i w (running job)
      → Step p (finish_job p i w job)
  unasked : (p : Pool) (i : ℕ) (w : Worker) → At p i w waiting → Step p (wake p i w)
  add_heard :
      (p : Pool) (job i : ℕ) (w : Worker)
      → At p i w waiting
      → Step p (wake (add_job_to_pool p job) i w)
  add_unheard :
      (p : Pool) (job : ℕ)
      → ((i : ℕ) (w : Worker) → get_elem? p.workers i ≡ some w → w.place ≢ waiting)
      → Step p (add_job_to_pool p job)

-- The states that a pool comes to.
pub data Reachable (start : Pool) : Pool → Type 0 where
  here : Reachable start start
  next : {p q : Pool} → Reachable start p → Step p q → Reachable start q
