-- ===== src/Tests/Threads.antt =====
-- A pool of two threads.
use mathlib.Core.Path.{subst}
use cpp_study.Base.{
  ◌+◌, ℕ, zero, suc, get_elem?, ◌≢◌, ◌≡◌, refl, [], ◌∷◌, true, false, some, ◌≤◌, ◌⊎◌,
}
use cpp_study.Base.Int.{pos}
use cpp_study.Pool.{
  awake, waiting, Worker, Pool, enter_section, add_job_to_pool, Step.enter, Step.add_unheard,
  Reachable, here, next,
}
use cpp_study.Pool.Wake.{IsServed}
use cpp_study.Pool.Jobs.{IsKept}
use cpp_study.Pool.Create.{Start, create_workers, create_pool, create_pool-serves}
use cpp_study.Pool.Drain.{
  Work, Works, work_enter, start_of, then_one, work_left, AllFinished, Works-finish,
}

abbrev starts : ℕ → Start
starts i = record { allocated = true; created = true }

abbrev two : Pool
two = (create_pool (pos 2) starts).1

abbrev idle : Worker
idle = record { terminate = false; place = awake }

-- The first thread takes the lock, and a job is added.
abbrev asleep : Pool
asleep = enter_section two 0 idle

asleep-Reachable : Reachable two asleep
unfolding create_pool
asleep-Reachable = next here (enter two 0 idle (refl, refl))

create_pool-serves_example : IsServed asleep × ((job : ℕ) → IsKept job asleep)
create_pool-serves_example =
    create_pool-serves (pos 2) starts asleep ((refl, refl, (refl, refl, tt))) asleep-Reachable

none_waits : (i : ℕ) (w : Worker) → get_elem? (idle ∷ idle ∷ []) i ≡ some w → w.place ≢ waiting
none_waits zero w e = let same : idle ≡ w = cc e in subst (λ v. v.place ≢ waiting) same (λ f. cc f)
none_waits (suc zero) w e =
    let same : idle ≡ w = cc e in subst (λ v. v.place ≢ waiting) same (λ f. cc f)
none_waits (suc (suc i)) w e = absurd (cc e)

-- Job 5 is added before a thread takes the lock.
abbrev busy : Pool
busy = add_job_to_pool two 5

busy-Reachable : Reachable two busy
unfolding create_pool create_workers
busy-Reachable = next here (add_unheard two 5 none_waits)

busy-IsServed : IsServed busy × ((job : ℕ) → IsKept job busy)
busy-IsServed =
    create_pool-serves (pos 2) starts busy ((refl, refl, (refl, refl, tt))) busy-Reachable

abbrev taken : Pool
taken = enter_section busy 0 idle

taken-Works : Works busy 1 0 taken
unfolding create_pool add_job_to_pool create_workers
taken-Works = then_one start_of (work_enter busy 0 idle (refl, refl))

Works-finish_example : (1 ≤ work_left busy + 0) × (((r : Pool) × Work taken r) ⊎ AllFinished taken)
Works-finish_example = Works-finish 1 0 busy taken busy-IsServed.0 busy-IsServed.1 taken-Works
