-- ===== src/HeartBeat/Client.antt =====
-- RunAsClient: probe the two addresses of the peer, and take its place when they stay silent.
-- A pass of the inner loop with what follows it is one round. Its answers are the codes of the
-- two ExecClient calls and, if the round asks for it, what became of the ps command.
use cpp_study.Base.{
  ℕ, zero, suc, ◌+◌, List, [], ◌∷◌, ◌++◌, Bool, true, false, not, ◌||◌, ◌&&◌, ltb, ◌==◌,
  if◌then◌else◌,
}
use cpp_study.Base.Int.{ℤ, pos, eqb_ℤ}

-- MAIN_FLAG says that the peer serves, BACKUP_FLAG that this host does.
pub data Flag : Type 0 where
  main_flag : Flag
  backup_flag : Flag

abbrev pub is_backup : Flag → Bool
is_backup main_flag = false
is_backup backup_flag = true

-- The local variables that live from one round to the next.
pub record Watch : Type 0 where
  pub retry_times : ℕ
  pub error_flag : Bool
  pub flag : Flag

pub data Ps : Type 0 where
  popen_failed : Ps
  fgets_failed : Ps
  counted : ℕ → Ps

-- The commands given to system, by the index of the interface, and sleep(conf.SleepSec).
pub data Action : Type 0 where
  if_up : ℕ → Action
  if_down : ℕ → Action
  start : Action
  quick : Action
  pause : Action

pub record Config : Type 0 where
  pub ethernet_number : ℕ
  pub max_retries : ℕ

pub record Round : Type 0 where
  pub ret1 : ℤ
  pub ret2 : ℤ
  pub ps : Ps

unfoldable pub first_watch : Watch
first_watch = record { retry_times = 0; error_flag = false; flag = main_flag }

-- One command for each of `n` interfaces from the index `i` on.
unfoldable pub for_each : (ℕ → Action) → ℕ → ℕ → List Action
for_each command i zero = []
for_each command i (suc n) = command i ∷ for_each command (i + 1) n

-- `0 == iRet1 || 0 == iRet2`
abbrev pub answered : Round → Bool
answered r = eqb_ℤ (r.ret1) (pos 0) || eqb_ℤ (r.ret2) (pos 0)

-- The body of the inner loop: whether it goes on with another pass, and the variables.
unfoldable pub attempt : Config → Watch → Round → Bool × Watch
attempt conf w r =
    if answered r
    then (false, record w { retry_times = 0; error_flag = false })
    else if ltb (conf.max_retries) (w.retry_times + 1)
    then (false, record w { retry_times = w.retry_times + 1; error_flag = true })
    else (true, record w { retry_times = w.retry_times + 1 })

-- Behind the commands that bring the interfaces up.
unfoldable pub after_ups : Watch → Ps → Watch × List Action
after_ups w popen_failed = (w, [])
after_ups w fgets_failed = (w, [])
after_ups w (counted n) =
    (record w { flag = backup_flag }, if n == 0 then start ∷ pause ∷ [] else pause ∷ [])

unfoldable pub react : Config → Watch → Ps → Watch × List Action
unfolding for_each after_ups
react conf w ps =
    let (w', rest) = after_ups w ps in
    if w.error_flag && not (is_backup w.flag)
    then (w', for_each if_up 0 conf.ethernet_number ++ rest)
    else if not w.error_flag && is_backup w.flag
    then (
      record w { flag = main_flag },
      for_each if_down 0 conf.ethernet_number ++ (quick ∷ pause ∷ []),
    )
    else (w, pause ∷ [])

unfoldable pub round : Config → Watch → Round → Watch × List Action
unfolding attempt react
round conf w r =
    let (again, w') = attempt conf w r in if again then (w', pause ∷ []) else react conf w' (r.ps)

unfoldable pub run_client : Config → Watch → List Round → Watch × List Action
unfolding round
run_client conf w [] = (w, [])
run_client conf w (r ∷ rs) =
    let (w1, now) = round conf w r in let (w2, later) = run_client conf w1 rs in (w2, now ++ later)
