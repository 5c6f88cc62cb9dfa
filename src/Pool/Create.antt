-- ===== src/Pool/Create.antt =====
-- pthread_pool.cpp: createPool, and the pools that it makes.
use mathlib.Core.Path.{subst}
use cpp_study.Base.{
  ℕ, zero, suc, ◌+◌, ◌≡◌, ◌≢◌, refl, List, [], ◌∷◌, Bool, true, false, not, arith, ◌<◌, ◌==◌, ◌⊎◌,
  inl, inr, if◌then◌else◌, length,
}
use cpp_study.Base.Int.{ℤ, pos}
use cpp_study.Pool.{awake, Worker, Pool, Reachable}
use cpp_study.Pool.Wake.{Stays, IsServed, Reachable-IsServed}
use cpp_study.Pool.Jobs.{count_running, IsKept, Reachable-IsKept}

-- What malloc and pthread_create answer for one thread.
pub record Start : Type 0 where
  pub allocated : Bool
  pub created : Bool

-- The loop, for `n` threads more.
unfoldable pub create_workers : ℕ → (ℕ → Start) → List Worker → ℕ × List Worker
create_workers zero answers workers = (0, workers)
create_workers (suc n) answers workers =
    let a = answers 0 in
    let worker : Worker = record { terminate = false; place = awake } in
    let rest = create_workers n (λ i. answers (suc i)) (worker ∷ workers) in
    if not a.allocated then (1, workers) else if not a.created then (1, workers) else rest

-- The number of threads to make: `if (pool_size < 1) pool_size = 1`
abbrev pub at_least_one : ℤ → ℕ
at_least_one (pos zero) = 1
at_least_one (pos (suc n)) = suc n
at_least_one (ℤ.negsuc n) = 1

unfoldable pub create_pool : ℤ → (ℕ → Start) → ℕ × Pool
unfolding create_workers
create_pool pool_size answers =
    let (code, workers) = create_workers (at_least_one pool_size) answers [] in
    (code, record { jobs = []; workers = workers; added = []; finished = [] })

-- The first `n` threads are given their memory, and they start.
abbrev pub AllStart : ℕ → (ℕ → Start) → Type 0
AllStart zero answers = Unit
AllStart (suc n) answers =
    ((answers 0).allocated ≡ true)
    × ((answers 0).created ≡ true)
    × AllStart n (λ i. answers (suc i))

create_workers-all :
    (n : ℕ) (answers : ℕ → Start) (workers : List Worker)
    → AllStart n answers
    → Stays workers
    → let (code, made) = create_workers n answers workers in
      (code ≡ 0) × (length made ≡ n + length workers) × Stays made
unfolding create_workers
create_workers-all zero answers workers ok s = (refl, omega arith, s)
create_workers-all (suc n) answers workers (a, c, ok) s =
    let worker : Worker = record { terminate = false; place = awake } in
    let (code, size, stay) =
      create_workers-all n (λ i. answers (suc i)) (worker ∷ workers) ok (refl, (λ e. cc e), s) in
    rw (a, c) (code, omega (arith, size), stay)

create_workers-idle :
    (job n : ℕ) (answers : ℕ → Start) (workers : List Worker)
    → count_running job (create_workers n answers workers).1 ≡ count_running job workers
unfolding create_workers
create_workers-idle job zero answers workers = refl
create_workers-idle job (suc n) answers workers =
    let worker : Worker = record { terminate = false; place = awake } in
    let rest = create_workers-idle job n (λ i. answers (suc i)) (worker ∷ workers) in
    ground (arith, rest)

-- A thread that is given no memory, or that does not start, ends createPool with 1: the threads
-- before it run on.
create_workers-fails :
    (n : ℕ) (answers : ℕ → Start) (workers : List Worker) (k : ℕ)
    → AllStart k answers
    → ((answers k).allocated ≡ false) ⊎ ((answers k).created ≡ false)
    → k < n
    → let (code, made) = create_workers n answers workers in
      (code ≡ 1) × (length made ≡ k + length workers)
unfolding create_workers
create_workers-fails zero answers workers k ok fails h = absurd (omega arith)
create_workers-fails (suc n) answers workers zero ok (inl a) h = rw a (refl, omega arith)
create_workers-fails (suc n) answers workers zero ok (inr c) h = ground arith
create_workers-fails (suc n) answers workers (suc k) (a, c, ok) fails h =
    let worker : Worker = record { terminate = false; place = awake } in
    let (code, size) =
      create_workers-fails n (λ i. answers (suc i)) (worker ∷ workers) k ok fails (omega arith) in
    rw (a, c) (code, omega (arith, size))

-- A thread that createPool is not given memory for, or that does not start, makes it return 1, and
-- the pool has the threads before that one; they run on. Where every thread starts, createPool
-- returns 0, and the pool has as many threads as was asked, or one where less than one was asked.
pub create_pool-size :
    (pool_size : ℤ) (answers : ℕ → Start) (k : ℕ)
    → AllStart k answers
    → (k ≡ at_least_one pool_size)
      ⊎ ((k < at_least_one pool_size)
          × (((answers k).allocated ≡ false) ⊎ ((answers k).created ≡ false)))
    → let (code, p) = create_pool pool_size answers in
      (code ≡ (if k == at_least_one pool_size then 0 else 1)) × (length p.workers ≡ k)
unfolding create_pool
create_pool-size pool_size answers k ok (inl all) =
    let every = subst (λ n. AllStart n answers) all ok in
    let (code, size, s) = create_workers-all (at_least_one pool_size) answers [] every tt in
    let same : (k == at_least_one pool_size) ≡ true = ground (arith, all) in
    rw same (code, omega (arith, size, all))
create_pool-size pool_size answers k ok (inr (below, fails)) =
    let (code, size) = create_workers-fails (at_least_one pool_size) answers [] k ok fails below in
    let other : (k == at_least_one pool_size) ≡ false = ground (arith, below) in
    rw other (code, omega (arith, size))

some_thread : (workers : List Worker) → 0 < length workers → workers ≢ []
some_thread [] h = absurd (omega arith)
some_thread (w ∷ workers) h = λ e. cc e

at_least_one-positive : (n : ℤ) → 0 < at_least_one n
at_least_one-positive (pos zero) = omega arith
at_least_one-positive (pos (suc n)) = omega arith
at_least_one-positive (ℤ.negsuc n) = omega arith

-- A pool that createPool makes, whatever size was asked, where every thread starts; and any state
-- that it comes to by addJobToPool and its threads, in whatever order they take the lock. While
-- there is a job in the list, some thread is before the lock, or runs a job and comes back to it.
-- And each job is as often in the list, in a running thread or finished, taken together, as it was
-- added.
pub create_pool-serves :
    (pool_size : ℤ) (answers : ℕ → Start) (q : Pool)
    → AllStart (at_least_one pool_size) answers
    → Reachable ((create_pool pool_size answers).1) q
    → IsServed q × ((job : ℕ) → IsKept job q)
unfolding create_pool
create_pool-serves pool_size answers q ok reach =
    let n = at_least_one pool_size in
    let p = (create_pool pool_size answers).1 in
    let (code, size, s) = create_workers-all n answers [] ok tt in
    let many : 0 < length p.workers = omega (arith, size, at_least_one-positive pool_size) in
    (
      Reachable-IsServed p q (some_thread p.workers many) s refl reach,
      λ job. Reachable-IsKept job p q (omega (arith, create_workers-idle job n answers [])) reach,
    )
