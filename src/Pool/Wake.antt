-- ===== src/Pool/Wake.antt =====
-- pthread_pool.cpp: no job is left in the list while every thread sleeps.
use cpp_study.Base.{
  ℕ, zero, suc, ◌≡◌, ◌≢◌, refl, List, [], ◌∷◌, Bool, true, false, some, get_elem?, set, ◌⊎◌, inl,
  inr,
}
use cpp_study.Pool.{
  Place, awake, waiting, running, gone, Worker, Pool, work_section, enter_section, finish_job, wake,
  add_job_to_pool, Step, Step.enter, Step.finish, Step.unasked, Step.add_heard, Step.add_unheard,
  Reachable, Reachable.here, Reachable.next,
}

-- The thread will take the lock, or it comes back to it when its job is done.
pub data IsUp : Place → Type 0 where
  up_awake : IsUp awake
  up_running : (job : ℕ) → IsUp (running job)

abbrev pub SomeUp : List Worker → Type 0
SomeUp ws = (i : ℕ) × (w : Worker) × (get_elem? ws i ≡ some w) × IsUp (w.place)

-- No thread was told to end, and none has.
abbrev pub Stays : List Worker → Type 0
Stays [] = Unit
Stays (w ∷ ws) = (w.terminate ≡ false) × (w.place ≢ gone) × Stays ws

pub record IsServed (p : Pool) : Type 0 where
  pub some_worker : p.workers ≢ []
  pub stays : Stays p.workers
  pub served : (p.jobs ≡ []) ⊎ SomeUp p.workers

Stays-get :
    (ws : List Worker) (i : ℕ) (w : Worker)
    → Stays ws
    → get_elem? ws i ≡ some w
    → (w.terminate ≡ false) × (w.place ≢ gone)
Stays-get [] i w s e = absurd (cc e)
Stays-get (v ∷ ws) zero w (t, g, s) e = let same : v ≡ w = cc e in (rw same at t, rw same at g)
Stays-get (v ∷ ws) (suc i) w (t, g, s) e = Stays-get ws i w s e

Stays-set :
    (ws : List Worker) (i : ℕ) (w : Worker)
    → Stays ws
    → w.terminate ≡ false
    → w.place ≢ gone
    → Stays (set ws i w)
Stays-set [] i w s t g = tt
Stays-set (v ∷ ws) zero w (t', g', s) t g = (t, g, s)
Stays-set (v ∷ ws) (suc i) w (t', g', s) t g = (t', g', Stays-set ws i w s t g)

get_elem?-set :
    (ws : List Worker) (i : ℕ) (v w : Worker)
    → get_elem? ws i ≡ some v
    → get_elem? (set ws i w) i ≡ some w
get_elem?-set [] i v w e = absurd (cc e)
get_elem?-set (u ∷ ws) zero v w e = refl
get_elem?-set (u ∷ ws) (suc i) v w e = get_elem?-set ws i v w e

set-some : (ws : List Worker) (i : ℕ) (w : Worker) → ws ≢ [] → set ws i w ≢ []
set-some [] i w h = h
set-some (u ∷ ws) zero w h = λ e. cc e
set-some (u ∷ ws) (suc i) w h = λ e. cc e

place-IsUp : (p : Place) → p ≢ gone → p ≢ waiting → IsUp p
place-IsUp awake g h = up_awake
place-IsUp waiting g h = absurd (h refl)
place-IsUp (running job) g h = up_running job
place-IsUp gone g h = absurd (g refl)

-- The pool once the thread `w` has gone to a place.
module _ (p : Pool) (h : IsServed p) (i : ℕ) (w : Worker) (e : get_elem? p.workers i ≡ some w) where
  moved :
      (place : Place) (jobs added finished : List ℕ)
      → place ≢ gone
      → (jobs ≡ []) ⊎ IsUp place
      → IsServed (record {
        jobs = jobs;
        workers = set p.workers i (record w { place = place });
        added = added;
        finished = finished;
      })
  moved place jobs added finished g up =
      let v : Worker = record w { place = place } in
      record {
        some_worker = set-some p.workers i v h.some_worker;
        stays = Stays-set p.workers i v h.stays (Stays-get p.workers i w h.stays e).0 g;
        served = elim up [
          | inl none_left ↦ inl none_left
          | inr u ↦ inr (i, v, get_elem?-set p.workers i w v e, u)
        ];
      }

section-IsUp :
    (terminate : Bool) (jobs : List ℕ)
    → terminate ≡ false
    → let (place, left) = work_section terminate jobs in (place ≢ gone) × ((left ≡ []) ⊎ IsUp place)
section-IsUp true jobs t = absurd (cc t)
section-IsUp false [] t = ((λ e. cc e), inl refl)
section-IsUp false (job ∷ jobs) t = ((λ e. cc e), inr (up_running job))

first_up :
    (ws : List Worker)
    → ws ≢ []
    → Stays ws
    → ((i : ℕ) (w : Worker) → get_elem? ws i ≡ some w → w.place ≢ waiting)
    → SomeUp ws
first_up [] h s none_waits = absurd (h refl)
first_up (w ∷ ws) h (t, g, s) none_waits = (0, w, refl, place-IsUp w.place g (none_waits 0 w refl))

pub Step-IsServed : (p q : Pool) → IsServed p → Step p q → IsServed q
unfolding enter_section finish_job wake add_job_to_pool
Step-IsServed p _ h (enter _ i w (e, at)) =
    let (g, up) = section-IsUp w.terminate p.jobs (Stays-get p.workers i w h.stays e).0 in
    let (place, jobs) = work_section w.terminate p.jobs in
    moved p h i w e place jobs p.added p.finished g up
Step-IsServed p _ h (finish _ i w job (e, at)) =
    moved p h i w e awake p.jobs p.added (job ∷ p.finished) (λ e. cc e) (inr up_awake)
Step-IsServed p _ h (unasked _ i w (e, at)) =
    moved p h i w e awake p.jobs p.added p.finished (λ e. cc e) (inr up_awake)
Step-IsServed p _ h (add_heard _ job i w (e, at)) =
    moved p h i w e awake (job ∷ p.jobs) (job ∷ p.added) p.finished (λ e. cc e) (inr up_awake)
Step-IsServed p _ h (add_unheard _ job none_waits) = record {
  some_worker = h.some_worker;
  stays = h.stays;
  served = inr (first_up p.workers h.some_worker h.stays none_waits);
}

-- No wake-up is lost: in a pool of at least one thread, none of them told to end, from a state
-- without jobs to any state that the threads and addJobToPool come to, in whatever order they
-- take the lock: while there is a job in the list, some thread is before the lock, or runs a job
-- and comes back to it.
pub Reachable-IsServed :
    (p q : Pool) → p.workers ≢ [] → Stays p.workers → p.jobs ≡ [] → Reachable p q → IsServed q
Reachable-IsServed p _ h s e here = record { some_worker = h; stays = s; served = inl e }
Reachable-IsServed p q h s e (next {p = r} before step) =
    Step-IsServed r q (Reachable-IsServed p r h s e before) step
